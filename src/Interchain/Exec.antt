-- ===== src/Interchain/Exec.antt =====
-- interchaintest/setup.go: the helpers that run a command on a chain under test.
use vector_chain.Prelude.{
  ℕ, ◌+◌, ◌≤◌, ◌≡◌, refl, sym, ap, ◌∙◌, subst, String, List, [], ◌∷◌, ◌++◌, Outcome, ok, fail,
  Failure, ◌⊎◌, inl, inr,
}
use vector_chain.Prelude.Actions.{Action}
use vector_chain.Interchain.{ChainNode, tx_command_builder_node}

-- What is called of the chain and of the JSON package. `S` is the chain with its containers and the
-- terminal, `R` a response, `I` what a query is read into. A call of `Exec` gives what the command
-- wrote, with an error or without; a value that cannot be read whole is changed as far as it was.
pub record TestChain (S R I : Type 0) : Type 0 where
  pub node : ChainNode
  pub exec : List String → S → (String × Outcome (Unit {0})) × S
  pub wait_for_blocks : ℕ → Action S (Unit {0})
  pub empty_response : R
  pub unmarshal_response : String → R → R × Outcome (Unit {0})
  pub unmarshal : String → I → I × Outcome (Unit {0})
  pub print_command : List String → S → S
  pub print_text : String → S → S
  pub print_failure : Failure → S → S

module _ {S R I : Type 0} (chain : TestChain S R I) where
  -- `if err != nil { fmt.Println(err) }`
  abbrev pub printed : Outcome (Unit {0}) → S → S
  printed (ok u) s = s
  printed (fail e) s = chain.print_failure e s

  -- What the command wrote is read, whether it ended with an error or not.
  unfoldable pub execute_exec : List String → I → List String → S → I × S
  execute_exec cmd i extra_flags s =
      let command = ((chain.node.bin ∷ []) ++ cmd) ++ extra_flags in
      let ((stdout, r), s₁) = chain.exec command (chain.print_command command s) in
      let (i', read) = chain.unmarshal stdout i in
      (i', printed read (chain.print_text stdout (printed r s₁)))

  unfoldable pub execute_query : List String → I → List String → S → I × S
  unfolding execute_exec
  execute_query cmd i extra_flags =
      let flags = "--node" ∷ chain.node.rpc_address ∷ "--output=json" ∷ [] in
      execute_exec cmd i (flags ++ extra_flags)

  abbrev pub response_of : String → R × Outcome (Unit {0})
  response_of stdout = chain.unmarshal_response stdout chain.empty_response

  abbrev pub waited : String → Outcome (Unit {0}) × S → (R × Outcome (Unit {0})) × S
  waited stdout (ok u, s) = (response_of stdout, s)
  waited stdout (fail e, s) = ((chain.empty_response, fail e), s)

  abbrev pub executed : (String × Outcome (Unit {0})) × S → (R × Outcome (Unit {0})) × S
  executed ((stdout, ok u), s) = waited stdout (chain.wait_for_blocks 2 s)
  executed ((stdout, fail e), s) = ((chain.empty_response, fail e), s)

  -- The response that is returned, and the error.
  unfoldable pub execute_transaction : List String → S → (R × Outcome (Unit {0})) × S
  execute_transaction cmd s = executed (chain.exec cmd s)

  -- `chain.GetNode()` is the node.
  unfoldable pub tx_command_builder : String → List String → String → List String → List String
  unfolding tx_command_builder_node
  tx_command_builder backend_test cmd from_user extra_flags =
      tx_command_builder_node backend_test chain.node cmd from_user extra_flags

  -- What is documented of the wait: where it ends without an error, the chain has made the blocks
  -- at least.
  pub record WaitLaws : Type 0 where
    pub height : S → ℕ
    pub waits :
        (n : ℕ) (s s' : S) → chain.wait_for_blocks n s ≡ (ok tt, s') → height s + n ≤ height s'

  -- A transaction that failed, of its command or of the wait.
  unfoldable pub IsFailed : List String → S → S → R → Outcome (Unit {0}) → Type 0
  IsFailed cmd s s' response r =
      (e : Failure) × (response ≡ chain.empty_response)
      × (r ≡ fail e)
      × (((stdout : String) × (chain.exec cmd s ≡ ((stdout, fail e), s')))
          ⊎ ((stdout : String) × (run : S) × (chain.exec cmd s ≡ ((stdout, ok tt), run))
              × (chain.wait_for_blocks 2 run ≡ (fail e, s'))))

  -- A transaction whose response was read.
  pub record IsAnswered (laws : WaitLaws) (cmd : List String) (s s' : S) (response : R)
      (r : Outcome (Unit {0})) : Type 0 where
    pub stdout : String
    pub run : S
    pub sent : chain.exec cmd s ≡ ((stdout, ok tt), run)
    pub two_blocks : laws.height run + 2 ≤ laws.height s'
    pub read : (response, r) ≡ response_of stdout

  -- A transaction fails with the error of its command or of the wait, and then with the empty
  -- response; or its command ran without an error, the chain made at least two blocks since, and the response
  -- with its error is what the command wrote, read into the empty response.
  pub execute_transaction_lem :
      (laws : WaitLaws) (cmd : List String) (s s' : S) (response : R) (r : Outcome (Unit {0}))
      → execute_transaction cmd s ≡ ((response, r), s')
      → IsFailed cmd s s' response r ⊎ IsAnswered laws cmd s s' response r
  unfolding execute_transaction IsFailed
  execute_transaction_lem laws cmd s s' response r h = sent (chain.exec cmd s) refl h
    where
      awaited :
          (stdout : String) (run : S) (w : Outcome (Unit {0}) × S)
          → chain.exec cmd s ≡ ((stdout, ok tt), run)
          → chain.wait_for_blocks 2 run ≡ w
          → waited stdout w ≡ ((response, r), s')
          → IsFailed cmd s s' response r ⊎ IsAnswered laws cmd s s' response r
      awaited stdout run (ok tt, s₂) e₁ e₂ h = inr (record {
        stdout = stdout;
        run = run;
        sent = e₁;
        two_blocks =
            subst (λ t. laws.height run + 2 ≤ laws.height t) (ap (λ p. p.1) h)
              (laws.waits 2 run s₂ e₂);
        read = sym (ap (λ p. p.0) h);
      })
      awaited stdout run (fail e, s₂) e₁ e₂ h = inl (
        e,
        sym (ap (λ p. p.0.0) h),
        sym (ap (λ p. p.0.1) h),
        inr (stdout, run, e₁, e₂ ∙ ap (λ p. (fail e, p.1)) h),
      )

      sent :
          (q : (String × Outcome (Unit {0})) × S)
          → chain.exec cmd s ≡ q
          → executed q ≡ ((response, r), s')
          → IsFailed cmd s s' response r ⊎ IsAnswered laws cmd s s' response r
      sent ((stdout, ok tt), run) e₁ h = awaited stdout run (chain.wait_for_blocks 2 run) e₁ refl h
      sent ((stdout, fail e), run) e₁ h = inl (
        e,
        sym (ap (λ p. p.0.0) h),
        sym (ap (λ p. p.0.1) h),
        inl (stdout, e₁ ∙ ap (λ p. ((stdout, fail e), p.1)) h),
      )
