-- ===== src/Testnet/AddressLaws.antt =====
-- What `calculateIP` of cmd/vectord/testnet.go computes from an address in dotted form.
use Prim.Native.Char.{code}
use mathlib.Core.List.{append-nil}
use text.Mathlib.TextLemmas.{nil-append, cons-append}
use vector_chain.Prelude.{
  ℕ, zero, suc, ◌+◌, ◌-◌, ◌*◌, ◌%◌, ◌≡◌, ◌≢◌, refl, ◌<◌, String, text_append, Bool, true, false,
  not, ◌&&◌, Option, none, some, List, [], ◌∷◌, ◌++◌, length, if◌then◌else◌, ◌==◌, decimal, ok,
  ok-injective, arith, Bool-cases, inl, inr, ap, sym, ◌∙◌,
}
use vector_chain.Testnet.Address.{
  codes, Ip, is_digit, refuses, ip_of, parse_fields, parse_ip, bump, ip_string, calculate_ip,
}

codes-append : (s t : String) → codes (text_append s t) ≡ codes s ++ codes t
codes-append String.[] t = rw nil-append
codes-append (String.◌∷◌ c s) t = rw cons-append (ap (λ l. code c ∷ l) (codes-append s t))

-- The digits of one field, as the parser reads them.
scan : List ℕ → ℕ → ℕ → Option (ℕ × ℕ)
scan [] val dig = some (val, dig)
scan (c ∷ cs) val dig =
    let next = val * 10 + (c - b'0') in
    let rest = scan cs next (dig + 1) in
    if is_digit c then if refuses val dig next then none else rest else none

scan-parse_fields :
    (l : List ℕ) (val dig val' dig' : ℕ) (rest : List ℕ) (done : List ℕ)
    → scan l val dig ≡ some (val', dig')
    → parse_fields (l ++ rest) val dig done ≡ parse_fields rest val' dig' done
unfolding scan parse_fields
scan-parse_fields [] val dig val' dig' rest done h = ground arith
scan-parse_fields (c ∷ cs) val dig val' dig' rest done h =
    let next = val * 10 + (c - b'0') in
    elim (Bool-cases (is_digit c)) [
      | inl digit ↦ elim (Bool-cases (refuses val dig next)) [
        | inl bad ↦
            let stuck : ◌≡◌ {A = Option (ℕ × ℕ)} none (some (val', dig')) = rw (digit, bad) at h in
            cc
        | inr fine ↦
            rw (digit, fine)
              (scan-parse_fields cs next (dig + 1) val' dig' rest done (rw (digit, fine) at h))
      ]
      | inr other ↦
          let stuck : ◌≡◌ {A = Option (ℕ × ℕ)} none (some (val', dig')) = rw other at h in cc
    ]

-- A field of digits before a dot tells the parser the form of the whole text.
scan-parse_ip :
    (parse_ipv6 : List ℕ → Option Ip) (s l : List ℕ) (val dig : ℕ) {r : ℕ × ℕ} (rest : List ℕ)
    → scan l val dig ≡ some r
    → parse_ip parse_ipv6 s (l ++ b'.' ∷ rest) ≡ parse_fields s 0 0 []
unfolding scan parse_ip
scan-parse_ip parse_ipv6 s [] val dig rest h = refl
scan-parse_ip parse_ipv6 s (c ∷ cs) val dig {r} rest h =
    let next = val * 10 + (c - b'0') in
    elim (Bool-cases (is_digit c)) [
      | inl digit ↦ elim (Bool-cases (refuses val dig next)) [
        | inl bad ↦ let stuck : none ≡ some r = rw (digit, bad) at h in cc
        | inr fine ↦
            let no_dot : (c == b'.') ≡ false = ground arith in
            let no_colon : (c == b':') ≡ false = ground arith in
            let no_percent : (c == b'%') ≡ false = ground arith in
            rw (no_dot, no_colon, no_percent)
              (scan-parse_ip parse_ipv6 s cs next (dig + 1) rest (rw (digit, fine) at h))
      ]
      | inr other ↦ let stuck : none ≡ some r = rw other at h in cc
    ]

-- Each byte is printed with digits that the parser reads back.
scans : ℕ → Option (ℕ × ℕ) → Bool
scans d none = false
scans d (some (val, dig)) = val == d && not (dig == 0)

-- The digits that a byte is printed with are read back as the byte.
reads_back : ℕ → Bool
reads_back byte = scans byte (scan (codes (decimal byte)) 0 0)

bytes_read : ℕ → Bool
bytes_read zero = true
bytes_read (suc byte) = bytes_read byte && reads_back byte

bytes_read-reads_back :
    (bound byte : ℕ) → byte < bound → bytes_read bound ≡ true → reads_back byte ≡ true
unfolding bytes_read
bytes_read-reads_back zero byte below table = absurd (omega arith)
bytes_read-reads_back (suc bound) byte below table =
    ground (arith, bytes_read-reads_back bound byte)

byte_table : bytes_read 256 ≡ true
unfolding bytes_read reads_back scans scan decimal
byte_table = refl

scans-eq :
    (d : ℕ) (o : Option (ℕ × ℕ))
    → scans d o ≡ true
    → (dig : ℕ) × (o ≡ some (d, dig)) × ((dig == 0) ≡ false)
unfolding scans
scans-eq d none h = cc
scans-eq d (some (val, dig)) h = (dig, ground arith, ground arith)

scan-decimal :
    (d : ℕ)
    → d < 256
    → (dig : ℕ) × (scan (codes (decimal d)) 0 0 ≡ some (d, dig)) × ((dig == 0) ≡ false)
unfolding reads_back
scan-decimal d h = scans-eq d _ (bytes_read-reads_back 256 d h byte_table)

abbrev pub IsBytes : Ip → Type 0
IsBytes ip = (ip.b0 < 256) × (ip.b1 < 256) × (ip.b2 < 256) × (ip.b3 < 256)

parse_fields-dot :
    (d : ℕ) (rest done : List ℕ)
    → d < 256
    → (length done == 3) ≡ false
    → parse_fields (codes (decimal d) ++ b'.' ∷ rest) 0 0 done
      ≡ parse_fields rest 0 0 (done ++ d ∷ [])
unfolding parse_fields
parse_fields-dot d rest done h short =
    let (dig, e, nonzero) = scan-decimal d h in
    scan-parse_fields (codes (decimal d)) 0 0 d dig (b'.' ∷ rest) done e ∙ rw (nonzero, short)

parse_fields-end :
    (d : ℕ) (done : List ℕ) → d < 256 → parse_fields (codes (decimal d)) 0 0 done ≡ ip_of done d
unfolding parse_fields
parse_fields-end d done h =
    let (dig, e, nonzero) = scan-decimal d h in
    ap (λ l. parse_fields l 0 0 done) (sym (append-nil (codes (decimal d))))
    ∙ (scan-parse_fields (codes (decimal d)) 0 0 d dig [] done e ∙ rw nonzero)

abbrev dotted : Ip → List ℕ
dotted ip =
    codes (decimal ip.b0)
    ++ b'.'
      ∷ (codes (decimal ip.b1) ++ b'.' ∷ (codes (decimal ip.b2) ++ b'.' ∷ codes (decimal ip.b3)))

codes-ip_string : (ip : Ip) → codes (ip_string ip) ≡ dotted ip
unfolding ip_string
codes-ip_string ip = simp codes-append

parse_fields-dotted : (ip : Ip) → IsBytes ip → parse_fields (dotted ip) 0 0 [] ≡ some ip
parse_fields-dotted ip (h0, h1, h2, h3) =
    parse_fields-dot ip.b0 _ [] h0 refl
    ∙ (parse_fields-dot ip.b1 _ (ip.b0 ∷ []) h1 refl
        ∙ (parse_fields-dot ip.b2 _ (ip.b0 ∷ ip.b1 ∷ []) h2 refl
            ∙ parse_fields-end ip.b3 (ip.b0 ∷ ip.b1 ∷ ip.b2 ∷ []) h3))

module _ (parse_ipv6 : List ℕ → Option Ip) where
  -- Printing an address and parsing the text gives the address back, whatever the parser of the form
  -- with colons does.
  pub parse_ip-ip_string :
      (ip : Ip)
      → IsBytes ip
      → parse_ip parse_ipv6 (codes (ip_string ip)) (codes (ip_string ip)) ≡ some ip
  parse_ip-ip_string ip h =
      let (dig, e, _) = scan-decimal ip.b0 h.0 in
      rw codes-ip_string (
        scan-parse_ip parse_ipv6 (dotted ip) (codes (decimal ip.b0)) 0 0 _ e
        ∙ parse_fields-dotted ip h)

  bump-mod : (i b : ℕ) → b < 256 → bump i b ≡ (b + i) % 256
  unfolding bump
  bump-mod zero b h = omega arith
  bump-mod (suc i) b h = bump-mod i ((b + 1) % 256) (omega arith) ∙ omega arith

  -- For a starting address in dotted form, node i has the address whose last byte is that of the
  -- start plus i, modulo 256, and whose other bytes are those of the start.
  pub calculate_ip_lem :
      (ip : Ip) (i : ℕ)
      → IsBytes ip
      → calculate_ip parse_ipv6 (ip_string ip) i
        ≡ ok (ip_string (record ip { b3 = (ip.b3 + i) % 256 }))
  unfolding calculate_ip
  calculate_ip_lem ip i h = rw (parse_ip-ip_string ip h, calculate_ip, bump-mod i ip.b3 h.3)

  ip_string-injective :
      (ip ip' : Ip) → IsBytes ip → IsBytes ip' → ip_string ip ≡ ip_string ip' → ip ≡ ip'
  ip_string-injective ip ip' h h' e =
      let parsed : some ip ≡ some ip' =
        sym (parse_ip-ip_string ip h)
        ∙ (ap (λ s. parse_ip parse_ipv6 (codes s) (codes s)) e ∙ parse_ip-ip_string ip' h') in
      cc

  -- Two nodes whose numbers differ by less than 256 have different addresses.
  pub calculate_ip_distinct :
      (ip : Ip) (i j : ℕ)
      → IsBytes ip
      → i < j
      → j < i + 256
      → calculate_ip parse_ipv6 (ip_string ip) i ≢ calculate_ip parse_ipv6 (ip_string ip) j
  calculate_ip_distinct ip i j h lt near e =
      let oks : ok (ip_string (record ip { b3 = (ip.b3 + i) % 256 }))
          ≡ ok (ip_string (record ip { b3 = (ip.b3 + j) % 256 })) =
        sym (calculate_ip_lem ip i h) ∙ (e ∙ calculate_ip_lem ip j h) in
      let ips =
        ip_string-injective (record ip { b3 = (ip.b3 + i) % 256 })
          (record ip { b3 = (ip.b3 + j) % 256 }) (h.0, h.1, h.2, omega arith)
          (h.0, h.1, h.2, omega arith) (ok-injective oks) in
      let bytes : (ip.b3 + i) % 256 ≡ (ip.b3 + j) % 256 = ap Ip.b3 ips in omega arith
