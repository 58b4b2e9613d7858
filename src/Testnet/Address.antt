-- ===== src/Testnet/Address.antt =====
-- The addresses of the nodes of cmd/vectord/testnet.go: `getIP` and `calculateIP`, with what they use
-- of package net, the dotted form of `ParseIP` and of `String`.
use Prim.Native.Char.{code}
use vector_chain.Prelude.{
  ℕ, zero, suc, ◌+◌, ◌-◌, ◌*◌, ◌%◌, ◌≡◌, refl, String, text_append, Bool, ◌&&◌, ◌||◌, Option, none,
  some, List, [], ◌∷◌, ◌++◌, length, if◌then◌else◌, leb, ltb, ◌==◌, decimal, Outcome, ok, fail,
  error,
}

-- The bytes of a text of ASCII characters.
abbrev pub codes : String → List ℕ
codes String.[] = []
codes (String.◌∷◌ c s) = code c ∷ codes s

-- The four bytes of an IPv4 address.
pub record Ip : Type 0 where
  pub b0 : ℕ
  pub b1 : ℕ
  pub b2 : ℕ
  pub b3 : ℕ

abbrev pub is_digit : ℕ → Bool
is_digit c = leb b'0' c && leb c b'9'

-- A digit that the parser refuses: it follows a leading zero, or the value `next` is too large.
abbrev pub refuses : ℕ → ℕ → ℕ → Bool
refuses val dig next = (dig == 1 && val == 0) || ltb 255 next

abbrev pub ip_of : List ℕ → ℕ → Option Ip
ip_of (a ∷ b ∷ c ∷ []) d = some (record { b0 = a; b1 = b; b2 = c; b3 = d })
ip_of _ d = none

-- The dotted form: the value and the number of digits of the current field, and the fields done. A
-- field has a digit, no leading zero and a value of at most 255, and there are four.
unfoldable pub parse_fields : List ℕ → ℕ → ℕ → List ℕ → Option Ip
parse_fields [] val dig done = if dig == 0 then none else ip_of done val
parse_fields (c ∷ cs) val dig done =
    let next = val * 10 + (c - b'0') in
    let digit = parse_fields cs next (dig + 1) done in
    let dot = parse_fields cs 0 0 (done ++ val ∷ []) in
    if is_digit c
    then if refuses val dig next then none else digit
    else if c == b'.'
    then if dig == 0 || length done == 3 then none else dot
    else none

-- `net.ParseIP(s).To4()`: the first of '.', ':' and '%' tells the form. The form with colons is the
-- argument: an IPv6 text may stand for an IPv4 address.
unfoldable pub parse_ip : (List ℕ → Option Ip) → List ℕ → List ℕ → Option Ip
unfolding parse_fields
parse_ip parse_ipv6 s [] = none
parse_ip parse_ipv6 s (c ∷ cs) =
    let dotted = parse_fields s 0 0 [] in
    let colons = parse_ipv6 s in
    let further = parse_ip parse_ipv6 s cs in
    if c == b'.' then dotted else if c == b':' then colons else if c == b'%' then none else further

-- `for j := 0; j < i; j++ { ipv4[3]++ }`, on bytes.
unfoldable pub bump : ℕ → ℕ → ℕ
bump zero b = b
bump (suc i) b = bump i ((b + 1) % 256)

-- `IP.String`
unfoldable pub ip_string : Ip → String
ip_string ip = text_append (decimal ip.b0) (
    text_append "." (
      text_append (decimal ip.b1)
        (text_append "." (text_append (decimal ip.b2) (text_append "." (decimal ip.b3))))))

module _ (parse_ipv6 : List ℕ → Option Ip) where
  unfoldable pub calculate_ip : String → ℕ → Outcome String
  unfolding parse_ip bump ip_string
  calculate_ip ip i = elim (parse_ip parse_ipv6 (codes ip) (codes ip)) [
    | none ↦ fail (error (text_append ip ": non ipv4 address"))
    | some ipv4 ↦ ok (ip_string (record ipv4 { b3 = bump i ipv4.b3 }))
  ]

  -- `external_ip` is what `server.ExternalIP` returns.
  unfoldable pub get_ip : Outcome String → ℕ → String → Outcome String
  unfolding calculate_ip
  get_ip external_ip i String.[] = external_ip
  get_ip external_ip i (String.◌∷◌ c s) = calculate_ip (String.◌∷◌ c s) i

abbrev no_ipv6 : List ℕ → Option Ip
no_ipv6 s = none

calculate_ip_runs : calculate_ip no_ipv6 "192.168.0.1" 3 ≡ ok "192.168.0.4"
unfolding calculate_ip decimal
calculate_ip_runs = refl

calculate_ip_leading_zero :
    calculate_ip no_ipv6 "192.168.0.01" 3 ≡ fail (error "192.168.0.01: non ipv4 address")
unfolding calculate_ip decimal
calculate_ip_leading_zero = refl
