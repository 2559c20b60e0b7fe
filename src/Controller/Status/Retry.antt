-- ===== src/Controller/Status/Retry.antt =====
-- What `updateStatusWithRetry` guarantees (internal/controller/kubenova_controller.go).
use kube_nova_operator.Api.{KubeNova}
use kube_nova_operator.Controller.Action.{Action, Session, raise, ◌>>=◌}
use kube_nova_operator.Controller.Cluster.{Cluster}
use kube_nova_operator.Controller.Status.{
  after_get, after_write, refresh, update_round, update_rounds, update_status_with_retry,
}
use kube_nova_operator.Prelude.{
  Bool-cases, arith, inl, inr, ltb, refl, suc, true, zero, ℕ, ◌*◌, ◌+◌, ◌≡◌,
}
use kube_nova_operator.Prelude.Results.{
  Error, Outcome, Reply, api, err, got, ok, panic, plain, refused, wrapped,
}

-- Nothing of the object in memory but its status and its resource version differs.
pub record SameButStatus (a b : KubeNova) : Type 0 where
  pub spec : a.spec ≡ b.spec
  pub name : a.metadata.name ≡ b.metadata.name
  pub namespace : a.metadata.namespace ≡ b.metadata.namespace
  pub generation : a.metadata.generation ≡ b.metadata.generation
  pub finalizers : a.metadata.finalizers ≡ b.metadata.finalizers
  pub deletion : a.metadata.deletion_timestamp ≡ b.metadata.deletion_timestamp

abbrev pub IsApiError : {E : Type 0} → Error E → Type 0
IsApiError (plain _) = ⊥
IsApiError (wrapped _ _) = ⊥
IsApiError (api _) = Unit

-- How the method ended: by success, with only the status and the resource version changed, or by
-- an error of the client, with the object in memory as it was.
abbrev pub Ended : {W E : Type 0} → KubeNova → Outcome (Error E) (Unit {0}) × Session W → Type 0
Ended kn (ok _, s) = SameButStatus s.kube_nova kn
Ended kn (err e, s) = IsApiError e × (s.kube_nova ≡ kn)
Ended kn (panic, s) = ⊥

abbrev Retries : {W E : Type 0} → Action W E (Unit {0}) → ℕ → KubeNova → Type 0
Retries {W} retry i kn =
    ltb i 2 ≡ true → (w : W) → Ended kn (retry (record { world = w; kube_nova = kn }))

module _ (c : Cluster) where
  refresh-SameButStatus : (kn latest : KubeNova) → SameButStatus (refresh c kn latest) kn
  refresh-SameButStatus kn latest = record {
    spec = refl;
    name = refl;
    namespace = refl;
    generation = refl;
    finalizers = refl;
    deletion = refl;
  }

  after_write-Ended :
      (retry : Action c.World c.ApiError (Unit {0})) (i : ℕ) (r : Reply c.ApiError KubeNova)
      (s : Session c.World)
      → Retries retry i s.kube_nova
      → Ended s.kube_nova (after_write c retry i r s)
  unfolding after_write ◌>>=◌
  after_write-Ended retry i (got latest) s h = refresh-SameButStatus s.kube_nova latest
  after_write-Ended retry i (refused e) s h = elim (Bool-cases (c.is_conflict e)) [
    | inl conflict ↦ elim (Bool-cases (ltb i 2)) [
      | inl early ↦ rw (conflict, early) (h early (c.sleep (100 * (i + 1)) s.world))
      | inr last ↦ rw (conflict, last) (tt, refl)
    ]
    | inr other ↦ rw other (tt, refl)
  ]

  after_get-Ended :
      (retry : Action c.World c.ApiError (Unit {0})) (i : ℕ) (r : Reply c.ApiError KubeNova)
      (s : Session c.World)
      → Retries retry i s.kube_nova
      → Ended s.kube_nova (after_get c retry i s.kube_nova r s)
  unfolding after_get ◌>>=◌
  after_get-Ended retry i (got latest) s h = after_write-Ended retry i _ _ h
  after_get-Ended retry i (refused e) s h = (tt, refl)

  update_round-Ended :
      (retry : Action c.World c.ApiError (Unit {0})) (i : ℕ) (s : Session c.World)
      → Retries retry i s.kube_nova
      → Ended s.kube_nova (update_round c retry i s)
  unfolding update_round ◌>>=◌
  update_round-Ended retry i s h = after_get-Ended retry i _ _ h

  update_rounds-Ended :
      (left i : ℕ) (s : Session c.World)
      → i + left ≡ 2
      → Ended s.kube_nova (update_rounds c (suc left) i s)
  unfolding update_rounds
  update_rounds-Ended zero i s h =
      update_round-Ended (raise (plain "状态更新失败，已重试 3 次")) i s (λ e. absurd (ground arith))
  update_rounds-Ended (suc left) i s h =
      update_round-Ended (update_rounds c (suc left) (i + 1)) i s
        λ _ w. update_rounds-Ended left (i + 1) (record s { world = w }) (omega arith)

  pub update_status_with_retry-Ended :
      (s : Session c.World) → Ended s.kube_nova (update_status_with_retry c s)
  unfolding update_status_with_retry
  update_status_with_retry-Ended s = update_rounds-Ended 2 0 s refl
