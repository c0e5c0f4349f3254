-- ===== src/Examples/Commands.antt =====
-- The theorems on applications, applied.
use persisthotstuff_rst.Base.{ℕ, ◌≡◌, ◌↔◌, refl, List, [], ◌∷◌, codes}
use persisthotstuff_rst.Types.{Text, no_op, client_tx}
use persisthotstuff_rst.App.{CommittedCommand, ok}
use persisthotstuff_rst.App.KeyValue.{StoreMap, store_get, is_verb, to_upper, apply_command}
use persisthotstuff_rst.App.KeyValue.Commands.{
  Operation, set, line, effect, answer, apply_command-effect,
}
use persisthotstuff_rst.App.Remote.{
  Fate, delivered, not_sent, not_answered, remote_apply, remote_restore, remote_snapshot,
}
use persisthotstuff_rst.App.Remote.Calls.{
  as_remote, apply_all, remote_apply_all, arrived, remote_apply_all-arrived, delivered_lem,
}
use persisthotstuff_rst.Examples.{toy_app}

abbrev stored : StoreMap
stored = (codes "a", codes "1") ∷ (codes "k", codes "2") ∷ []

abbrev set_k : Operation
set_k = set (codes "k") (codes "v w")

apply_command-effect_example :
    ((j : Text)
      → store_get j (apply_command stored (client_tx (line (codes "sEt") set_k))).0
        ≡ effect set_k (λ k. store_get k stored) j)
    × ((apply_command stored (client_tx (line (codes "sEt") set_k))).1
        ≡ ok (answer set_k (λ k. store_get k stored)))
unfolding is_verb to_upper
apply_command-effect_example = apply_command-effect stored (codes "sEt") set_k refl (refl, tt)

abbrev committed : ℕ → CommittedCommand
committed i = record {
  block_hash = i;
  view = i;
  epoch = 0;
  proposer = 0;
  command = no_op;
  commit_index = i;
}

abbrev some_calls : List (Fate × CommittedCommand)
some_calls =
    (delivered, committed 0)
    ∷ (not_sent (codes "gone"), committed 1)
    ∷ (not_answered (codes "late"), committed 2)
    ∷ []

remote_apply_all-arrived_example :
    remote_apply_all toy_app (λ t. t) 5 some_calls
    ≡ apply_all toy_app (λ t. t) 5 (arrived toy_app (λ t. t) some_calls)
remote_apply_all-arrived_example = remote_apply_all-arrived toy_app (λ t. t) 5 some_calls

delivered_lem_example :
    ((remote_apply toy_app (λ t. t) delivered 5 (committed 0)).1
      ≡ as_remote toy_app (λ t. t) (toy_app.apply 5 (committed 0)).1)
    × ((remote_restore toy_app (λ t. t) delivered 5 (7 ∷ [])).0 ≡ (toy_app.restore 5 (7 ∷ [])).0)
    × (((remote_restore toy_app (λ t. t) delivered 5 (7 ∷ [])).1 ≡ ok tt)
        ↔ ((toy_app.restore 5 (7 ∷ [])).1 ≡ ok tt))
    × ((remote_snapshot toy_app (λ t. t) delivered 5 ≡ ok (7 ∷ []))
        ↔ (toy_app.snapshot 5 ≡ ok (7 ∷ [])))
delivered_lem_example = delivered_lem toy_app (λ t. t) 5 (committed 0) (7 ∷ [])
