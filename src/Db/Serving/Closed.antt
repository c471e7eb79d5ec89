-- ===== src/Db/Serving/Closed.antt =====
-- Which requests reach a database, over its life and the lives of the others on its node.
use jaydb.Base.{
  ℕ, ◌≡◌, refl, ◌∙◌, ap, List, [], ◌∷◌, ◌++◌, Str, false, Option, none, some, if◌then◌else◌, str_eq,
  str_eq_iff, lookup, lookup-insert, lookup-erase, lookup-insert_self, lookup-erase_self, codes, ℤ,
  arith, All,
}
use jaydb.Cluster.Binary.Write.{Req, Resp}
use jaydb.Cluster.Mesh.{
  Handler, Node, Formats, register_handler, unregister_handler, handler_for, authenticate, dispatch,
  serve, error_resp, no_handler_text, unauthenticated_text,
}
use jaydb.Cluster.Members.{Event}
use jaydb.Cluster.Start.{Net}
use jaydb.Db.Serving.{Host, Life, opened, closed, open_on, close_on, run_lives}

-- The life of a database of another namespace.
abbrev pub IsOther : {S : Type 0} → Str → Life S → Type 0
IsOther k (opened namespace d) = str_eq namespace k ≡ false
IsOther k (closed namespace es) = str_eq namespace k ≡ false

module _ {S : Type 0} (net : Net) where
  pub run_lives-handler :
      (k : Str) (ls : List (Life S)) (h : Host S)
      → All (IsOther k) ls
      → lookup k (run_lives net ls h).serves.handlers ≡ lookup k h.serves.handlers
  unfolding run_lives open_on close_on register_handler unregister_handler
  run_lives-handler k [] h o = refl
  run_lives-handler k (opened namespace d ∷ ls) h o =
      run_lives-handler k ls (open_on namespace d h) o.1
      ∙ ground (arith, o.0, lookup-insert namespace k d h.serves.handlers, str_eq_iff namespace k)
  run_lives-handler k (closed namespace es ∷ ls) h o =
      run_lives-handler k ls (close_on net namespace es h) o.1
      ∙ ground (arith, o.0, lookup-erase namespace k h.serves.handlers, str_eq_iff namespace k)

  run_lives-legacy :
      (ls : List (Life S)) (h : Host S)
      → ((run_lives net ls h).serves.db_handler ≡ h.serves.db_handler)
        × ((run_lives net ls h).serves.cluster_secret ≡ h.serves.cluster_secret)
  unfolding run_lives open_on close_on register_handler unregister_handler
  run_lives-legacy [] h = (refl, refl)
  run_lives-legacy (opened namespace d ∷ ls) h = run_lives-legacy ls (open_on namespace d h)
  run_lives-legacy (closed namespace es ∷ ls) h = run_lives-legacy ls (close_on net namespace es h)

  module _ (f : Formats) where
    -- What a request gets that no handler takes, and one that a handler takes.
    abbrev pub answered : Str → (ℕ → ℤ) → Option (Handler S) → Req → S → Resp × S
    answered secret since who r s =
        if authenticate f secret since r
        then elim who [
          | none ↦ (error_resp (no_handler_text ++ (codes " " ++ f.quote r.namespace)), s)
          | some d ↦ dispatch f d r s
        ]
        else (error_resp unauthenticated_text, s)

    serve-answered :
        (n : Node S) (since : ℕ → ℤ) (who : Option (Handler S)) (r : Req) (s : S)
        → handler_for r.namespace n ≡ who
        → serve f n since r s ≡ answered n.cluster_secret since who r s
    unfolding serve
    serve-answered n since who r s e = ap (λ w. answered n.cluster_secret since w r s) e

    handler_for-lookup :
        (k : Str) (n : Node S) (w : Option (Handler S))
        → lookup k n.handlers ≡ w
        → n.db_handler ≡ none
        → handler_for k n ≡ w
    unfolding handler_for
    handler_for-lookup k n none e h = rw (handler_for, e) h
    handler_for-lookup k n (some d) e h = rw (handler_for, e) refl

    served-later :
        (h : Host S) (ls : List (Life S)) (since : ℕ → ℤ) (w : Option (Handler S)) (r : Req) (s : S)
        → h.serves.db_handler ≡ none
        → lookup r.namespace h.serves.handlers ≡ w
        → All (IsOther r.namespace) ls
        → serve f (run_lives net ls h).serves since r s
          ≡ answered h.serves.cluster_secret since w r s
    served-later h ls since w r s e l o =
        let n = (run_lives net ls h).serves in
        let t = run_lives-legacy ls h in
        serve-answered n since w r s
          (handler_for-lookup r.namespace n w (run_lives-handler r.namespace ls h o ∙ l) (t.0 ∙ e))
        ∙ ap (λ k. answered k since w r s) t.1

    -- On a node with no handler of old, whatever databases of other namespaces are opened and closed
    -- afterwards: a request with the namespace of a database that was opened reaches the handler of
    -- that database, and one with the namespace of a database that was closed gets the error that
    -- there is no handler and changes nothing, if it is authentic; else each gets the error that it is
    -- not.
    pub run_lives-served :
        (h : Host S) (d : Handler S) (es : List Event) (ls : List (Life S)) (since : ℕ → ℤ)
        (r : Req) (s : S)
        → h.serves.db_handler ≡ none
        → All (IsOther r.namespace) ls
        → (serve f (run_lives net ls (open_on r.namespace d h)).serves since r s
            ≡ answered h.serves.cluster_secret since (some d) r s)
          × (serve f (run_lives net ls (close_on net r.namespace es h)).serves since r s
              ≡ answered h.serves.cluster_secret since none r s)
    unfolding open_on close_on register_handler unregister_handler
    run_lives-served h d es ls since r s e o =
        let k = r.namespace in
        let up = open_on k d h in
        let down = close_on net k es h in
        (
          served-later up ls since (some d) r s e (lookup-insert_self k d h.serves.handlers) o,
          served-later down ls since none r s e (lookup-erase_self k h.serves.handlers) o,
        )
