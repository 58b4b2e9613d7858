-- ===== src/Wiring/Packets.antt =====
-- The ways of the packets of a transfer through the stacks that `NewChainApp` of app/app.go builds.
use vector_chain.Prelude.{
  ℕ, zero, suc, ◌≡◌, refl, sym, ap, ◌∙◌, Bool, Option, none, some, List, [], ◌∷◌, if◌then◌else◌,
  Bool-cases, inl, inr, ok, All, get_elem?, >>=-eq-ok, ok-injective,
}
use mathlib.Core.List.{reverse}
use mathlib.Core.Option.{some-injective}
use vector_chain.Wiring.Places.{Place}
use vector_chain.Wiring.Calls.{
  Part, Argument, place, part, Value, object, Call, find, found, read_part, eval, eval_all, Sdk,
  channel_keeper,
}
use vector_chain.Wiring.Order.{assigns}
use vector_chain.Wiring.Wired.{Wired}
use vector_chain.Wiring.Construct.{Host, Process, new_chain_app}
use vector_chain.Wiring.ChainCalls.{chain_app_calls}
use vector_chain.Wiring.ChainApp.{new_chain_app-Wired}

-- What a packet passes.
pub data Layer : Type 0 where
  forwards fees limits transfers : Layer

-- What is known of the modules and keepers of IBC: `handles` are the layers of an object that a
-- packet that comes in passes in turn, `sends` those that a packet passes that goes out.
pub record Layers {K S : Type 0} (sdk : Sdk K S) : Type 0 where
  pub handles : K → List Layer
  pub sends : K → List Layer
  -- the module of the transfers is the application
  pub module_handles :
      (vs : List (Value K)) (s s' : S) (k : K)
      → sdk.make Place.transfer_module vs s ≡ (ok k, s')
      → handles k ≡ transfers ∷ []
  -- a middleware handles a packet and hands it to the module beneath it
  pub limited_handles :
      (vs : List (Value K)) (s s' : S) (k inner : K)
      → get_elem? vs 1 ≡ some (object inner)
      → sdk.make Place.limited_transfer vs s ≡ (ok k, s')
      → handles k ≡ limits ∷ handles inner
  pub fee_handles :
      (vs : List (Value K)) (s s' : S) (k inner : K)
      → get_elem? vs 0 ≡ some (object inner)
      → sdk.make Place.fee_transfer vs s ≡ (ok k, s')
      → handles k ≡ fees ∷ handles inner
  pub stack_handles :
      (vs : List (Value K)) (s s' : S) (k inner : K)
      → get_elem? vs 0 ≡ some (object inner)
      → sdk.make Place.transfer_stack vs s ≡ (ok k, s')
      → handles k ≡ forwards ∷ handles inner
  -- a keeper sends through the wrapper that it was given
  pub transfer_sends :
      (vs : List (Value K)) (s s' : S) (k wrapper : K)
      → get_elem? vs 3 ≡ some (object wrapper)
      → sdk.make Place.transfer vs s ≡ (ok k, s')
      → sends k ≡ transfers ∷ sends wrapper
  pub limit_sends :
      (vs : List (Value K)) (s s' : S) (k wrapper : K)
      → get_elem? vs 6 ≡ some (object wrapper)
      → sdk.make Place.rate_limit vs s ≡ (ok k, s')
      → sends k ≡ limits ∷ sends wrapper
  pub fee_sends :
      (vs : List (Value K)) (s s' : S) (k wrapper : K)
      → get_elem? vs 2 ≡ some (object wrapper)
      → sdk.make Place.ibc_fee vs s ≡ (ok k, s')
      → sends k ≡ fees ∷ sends wrapper
  -- the channels are the end
  pub channel_sends : (k : K) → sends (sdk.part_of channel_keeper k) ≡ []

abbrev pub Holds : {A : Type 0} → (A → Type 0) → Option A → Type 0
Holds P none = Unit
Holds P (some x) = P x

-- The first call that assigns the place.
unfoldable pub call_of : Place → List Call → Option Call
call_of p [] = none
call_of p (c ∷ cs) = if assigns p c then some c else call_of p cs

pub All-call_of :
    (P : Call → Type 0) (p : Place) (cs : List Call) → All P cs → Holds P (call_of p cs)
unfolding call_of
All-call_of P p [] h = tt
All-call_of P p (c ∷ cs) h = elim (Bool-cases (assigns p c)) [
  | inl found ↦ rw found h.0
  | inr other ↦ rw other (All-call_of P p cs h.1)
]

module _ {K S : Type 0} (sdk : Sdk K S) (ps : List (Place × K)) where
  -- An argument that is read is the value at its position.
  get_elem?-eval_all :
      (as' : List Argument) (vs : List (Value K)) (i : ℕ) (a : Argument) (v : Value K)
      → eval_all sdk.part_of ps as' ≡ ok vs
      → get_elem? as' i ≡ some a
      → eval sdk.part_of ps a ≡ ok v
      → get_elem? vs i ≡ some v
  unfolding eval_all
  get_elem?-eval_all [] vs i a v read at e = cc
  get_elem?-eval_all (b ∷ as') vs zero a v read at e =
      let (w, first, later) = >>=-eq-ok (eval sdk.part_of ps b) _ read in
      let (ws, reads, done) = >>=-eq-ok (eval_all sdk.part_of ps as') _ later in
      let same : w ≡ v =
        ok-injective (sym first ∙ ap (eval sdk.part_of ps) (some-injective b a at) ∙ e) in
      ap (λ us. get_elem? us 0) (sym (ok-injective done)) ∙ ap some same
  get_elem?-eval_all (b ∷ as') vs (suc i) a v read at e =
      let (w, _, later) = >>=-eq-ok (eval sdk.part_of ps b) _ read in
      let (ws, reads, done) = >>=-eq-ok (eval_all sdk.part_of ps as') _ later in
      ap (λ us. get_elem? us (suc i)) (sym (ok-injective done))
      ∙ get_elem?-eval_all as' ws i a v reads at e

  -- An argument that is a place is what the place holds.
  pub place_argument :
      (as' : List Argument) (vs : List (Value K)) (i : ℕ) (p : Place) (k : K)
      → eval_all sdk.part_of ps as' ≡ ok vs
      → get_elem? as' i ≡ some (place p)
      → find p ps ≡ some k
      → get_elem? vs i ≡ some (object k)
  unfolding eval
  place_argument as' vs i p k read at e =
      get_elem?-eval_all as' vs i (place p) (object k) read at (ap (λ o. ok (found o)) e)

  part_argument :
      (as' : List Argument) (vs : List (Value K)) (i : ℕ) (p : Place) (x : Part) (k : K)
      → eval_all sdk.part_of ps as' ≡ ok vs
      → get_elem? as' i ≡ some (part p x)
      → find p ps ≡ some k
      → get_elem? vs i ≡ some (object (sdk.part_of x k))
  unfolding eval
  part_argument as' vs i p x k read at e =
      get_elem?-eval_all as' vs i (part p x) (object (sdk.part_of x k)) read at
        (ap (read_part (sdk.part_of x)) e)

module _ {K S U : Type 0} (host : Host K S U) (layers : Layers host.sdk) where
  -- Where an application is returned: a packet of a transfer that comes in passes the forwarding,
  -- the fees and the rate limits before it reaches the transfers; and what the keeper of the
  -- transfers sends passes, but for the forwarding, the same layers the other way round.
  pub new_chain_app-handles :
      (load_latest : Bool) (p p' : Process K S U)
      → p.built.places ≡ []
      → new_chain_app host load_latest p ≡ (ok tt, p')
      → (stack : K) × (keeper : K) × (find Place.transfer_stack p'.built.places ≡ some stack)
        × (find Place.transfer p'.built.places ≡ some keeper)
        × (layers.handles stack ≡ forwards ∷ fees ∷ limits ∷ transfers ∷ [])
        × (layers.handles stack ≡ forwards ∷ reverse (layers.sends keeper))
  unfolding Wired call_of chain_app_calls
  new_chain_app-handles load_latest p p' empty e =
      let ps = p'.built.places in
      let (snapshots, wired, _, _, _) = new_chain_app-Wired host load_latest p p' empty e in
      let all = λ (q : Place).
        All-call_of (Wired host.sdk ps) q (chain_app_calls snapshots load_latest) wired in
      let (ibc, _, _, _, ibc_at, _, _, _) = all Place.ibc in
      let (fee, fee_vs, fee_s, fee_s', fee_at, fee_read, _, fee_made) = all Place.ibc_fee in
      let (lim, lim_vs, lim_s, lim_s', lim_at, lim_read, _, lim_made) = all Place.rate_limit in
      let (tra, tra_vs, tra_s, tra_s', tra_at, tra_read, _, tra_made) = all Place.transfer in
      let (m₀, vs₀, s₀, s₀', at₀, read₀, _, made₀) = all Place.transfer_module in
      let (m₁, vs₁, s₁, s₁', at₁, read₁, _, made₁) = all Place.limited_transfer in
      let (m₂, vs₂, s₂, s₂', at₂, read₂, _, made₂) = all Place.fee_transfer in
      let (m₃, vs₃, s₃, s₃', at₃, read₃, _, made₃) = all Place.transfer_stack in
      let handled : layers.handles m₃ ≡ forwards ∷ fees ∷ limits ∷ transfers ∷ [] =
        layers.stack_handles vs₃ s₃ s₃' m₃ m₂
          (place_argument host.sdk ps _ vs₃ 0 Place.fee_transfer m₂ read₃ refl at₂) made₃
        ∙ ap (λ l. forwards ∷ l)
            (layers.fee_handles vs₂ s₂ s₂' m₂ m₁
                (place_argument host.sdk ps _ vs₂ 0 Place.limited_transfer m₁ read₂ refl at₁) made₂
              ∙ ap (λ l. fees ∷ l)
                  (layers.limited_handles vs₁ s₁ s₁' m₁ m₀
                      (place_argument host.sdk ps _ vs₁ 1 Place.transfer_module m₀ read₁ refl at₀)
                      made₁
                    ∙ ap (λ l. limits ∷ l) (layers.module_handles vs₀ s₀ s₀' m₀ made₀))) in
      let sent : layers.sends tra ≡ transfers ∷ limits ∷ fees ∷ [] =
        layers.transfer_sends tra_vs tra_s tra_s' tra lim
          (place_argument host.sdk ps _ tra_vs 3 Place.rate_limit lim tra_read refl lim_at) tra_made
        ∙ ap (λ l. transfers ∷ l)
            (layers.limit_sends lim_vs lim_s lim_s' lim fee
                (place_argument host.sdk ps _ lim_vs 6 Place.ibc_fee fee lim_read refl fee_at)
                lim_made
              ∙ ap (λ l. limits ∷ l)
                  (layers.fee_sends fee_vs fee_s fee_s' fee (host.sdk.part_of channel_keeper ibc)
                      (part_argument host.sdk ps _ fee_vs 2 Place.ibc channel_keeper ibc fee_read
                        refl ibc_at)
                      fee_made
                    ∙ ap (λ l. fees ∷ l) (layers.channel_sends ibc))) in
      (m₃, tra, at₃, tra_at, handled, handled ∙ ap (λ l. forwards ∷ reverse l) (sym sent))
