-- ===== src/Decorators/Filter.antt =====
-- What the message filter of app/decorators/msg_filter_template.go decides.
use vector_chain.Prelude.{
  ℕ, ◌≡◌, refl, String, str_eq, eq_iff, Bool, true, false, some, List, [], ◌∷◌, ◌⊎◌, inl, inr, ◌↔◌,
  arith, Bool-cases,
}
use vector_chain.Decorators.{
  Msg, plain, exec, exec_corrupt, Msgs, nil, cons, message_name, is_blocked, is_disallowed,
  has_disallowed, filter_decorator, has_disallowed_message, Tx, AnteHandler, unsupported,
  ante_handle,
}

-- `m` stands in the list, or in the messages of an exec that does, at any depth.
pub data Occurs (m : Msg) : Msgs → Type 0 where
  here : {x : Msg} {ms : Msgs} → x ≡ m → Occurs m (cons x ms)
  there : {x : Msg} {ms : Msgs} → Occurs m ms → Occurs m (cons x ms)
  inside : {ns ms : Msgs} → Occurs m ns → Occurs m (cons (exec ns) ms)

-- Some blocked message has this name.
pub data Names (exec_name name : String) : List Msg → Type 0 where
  first :
      {b : Msg} {bs : List Msg} → name ≡ message_name exec_name b → Names exec_name name (b ∷ bs)
  later : {b : Msg} {bs : List Msg} → Names exec_name name bs → Names exec_name name (b ∷ bs)

abbrev pub IsCorrupt : Msg → Type 0
IsCorrupt m = (e : String) × (m ≡ exec_corrupt e)

-- A message is refused for itself: its type is blocked, or its nested messages cannot be read.
abbrev pub Offends : String → List Msg → Msg → Type 0
Offends exec_name blocked m = IsCorrupt m ⊎ Names exec_name (message_name exec_name m) blocked

is_blocked→Names :
    (exec_name : String) (bs : List Msg) (name : String)
    → is_blocked exec_name bs name ≡ true
    → Names exec_name name bs
unfolding is_blocked
is_blocked→Names exec_name [] name h = cc
is_blocked→Names exec_name (b ∷ bs) name h =
    elim (Bool-cases (str_eq name (message_name exec_name b))) [
      | inl same ↦ first ((eq_iff name (message_name exec_name b)).0 same)
      | inr other ↦ later (is_blocked→Names exec_name bs name (rw other at h))
    ]

Names→is_blocked :
    (exec_name name : String) {bs : List Msg}
    → Names exec_name name bs
    → is_blocked exec_name bs name ≡ true
unfolding is_blocked
Names→is_blocked exec_name name (first {b = b} e) =
    rw ((eq_iff name (message_name exec_name b)).1 e)
Names→is_blocked exec_name name (later {b = b} n) =
    ground (arith, Names→is_blocked exec_name name n)

module _ (exec_name : String) (blocked : List Msg) where
  -- A message of the list, at any depth, that is refused for itself.
  abbrev pub Offender : Msgs → Type 0
  Offender ms = (m : Msg) × Occurs m ms × Offends exec_name blocked m

  weaken : (m : Msg) {ms : Msgs} → Offender (cons m nil) → Offender (cons m ms)
  weaken m (x, here e, bad) = (x, here e, bad)
  weaken m (x, there o, bad) = absurd (elim o [ ])
  weaken (exec ns) (x, inside o, bad) = (x, inside o, bad)

mutual
  unfolding has_disallowed

  disallowed→Offender :
      (exec_name : String) (blocked : List Msg) (m : Msg)
      → is_disallowed exec_name blocked m ≡ true
      → Offender exec_name blocked (cons m nil)
  disallowed→Offender exec_name blocked (plain name) h =
      (plain name, here refl, inr (is_blocked→Names exec_name blocked name h))
  disallowed→Offender exec_name blocked (exec ms) h =
      elim (Bool-cases (has_disallowed exec_name blocked ms)) [
        | inl nested ↦
            let (x, o, bad) = has_disallowed→Offender exec_name blocked ms nested in
            (x, inside o, bad)
        | inr clean ↦
            (exec ms, here refl, inr (is_blocked→Names exec_name blocked exec_name (rw clean at h)))
      ]
  disallowed→Offender exec_name blocked (exec_corrupt e) h =
      (exec_corrupt e, here refl, inl (e, refl))

  has_disallowed→Offender :
      (exec_name : String) (blocked : List Msg) (ms : Msgs)
      → has_disallowed exec_name blocked ms ≡ true
      → Offender exec_name blocked ms
  has_disallowed→Offender exec_name blocked nil h = cc
  has_disallowed→Offender exec_name blocked (cons m ms) h =
      elim (Bool-cases (is_disallowed exec_name blocked m)) [
        | inl bad ↦ weaken exec_name blocked m (disallowed→Offender exec_name blocked m bad)
        | inr fine ↦
            let (x, o, bad) = has_disallowed→Offender exec_name blocked ms (rw fine at h) in
            (x, there o, bad)
      ]

module _ (exec_name : String) (blocked : List Msg) where
  offends→disallowed :
      (m : Msg) → Offends exec_name blocked m → is_disallowed exec_name blocked m ≡ true
  unfolding has_disallowed
  offends→disallowed (plain name) (inl (e, p)) = cc
  offends→disallowed (plain name) (inr n) = Names→is_blocked exec_name name n
  offends→disallowed (exec ms) (inl (e, p)) = cc
  offends→disallowed (exec ms) (inr n) = ground (arith, Names→is_blocked exec_name exec_name n)
  offends→disallowed (exec_corrupt e) bad = refl

  Occurs→disallowed :
      (m : Msg)
      → Offends exec_name blocked m
      → {ms : Msgs} → Occurs m ms
      → has_disallowed exec_name blocked ms ≡ true
  unfolding has_disallowed
  Occurs→disallowed m bad (here {x = x} e) = rw (e, offends→disallowed m bad)
  Occurs→disallowed m bad (there o) = ground (arith, Occurs→disallowed m bad o)
  Occurs→disallowed m bad (inside o) = ground (arith, Occurs→disallowed m bad o)

-- The filter refuses a list exactly when some message in it, at any depth of nested execs, has the
-- name of a blocked type or is an exec whose messages cannot be read.
pub has_disallowed_message_iff :
    (exec_name : String) (blocked : List Msg) (msgs : Msgs)
    → (has_disallowed_message exec_name (filter_decorator blocked) msgs ≡ true)
      ↔ Offender exec_name blocked msgs
unfolding has_disallowed_message filter_decorator
has_disallowed_message_iff exec_name blocked msgs = (
  has_disallowed→Offender exec_name blocked msgs,
  λ (m, o, bad). Occurs→disallowed exec_name blocked m bad o,
)

-- The decorator either finds a message that is refused for itself, at any depth, and answers with
-- the context it came with and the error of the current height, or there is none and the answer is
-- the next handler's.
pub ante_handle_decides :
    {Ctx : Type 0} (block_height : Ctx → ℕ) (exec_name : String) (blocked : List Msg) (ctx : Ctx)
    (tx : Tx) (simulate : Bool) (next : AnteHandler Ctx)
    → let result =
        ante_handle block_height exec_name (filter_decorator blocked) ctx tx simulate next in
      (Offender exec_name blocked tx.msgs × (result ≡ (ctx, some (unsupported (block_height ctx)))))
      ⊎ ((¬ Offender exec_name blocked tx.msgs) × (result ≡ next ctx tx simulate))
unfolding ante_handle filter_decorator
ante_handle_decides block_height exec_name blocked ctx tx simulate next =
    elim (Bool-cases (has_disallowed exec_name blocked tx.msgs)) [
      | inl refused ↦ inl (has_disallowed→Offender exec_name blocked tx.msgs refused, rw refused)
      | inr passed ↦ inr (none_found passed, rw passed)
    ]
  where
    none_found :
        has_disallowed exec_name blocked tx.msgs ≡ false → ¬ Offender exec_name blocked tx.msgs
    none_found passed (m, o, bad) = let refused = Occurs→disallowed exec_name blocked m bad o in cc
