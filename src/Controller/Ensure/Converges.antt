-- ===== src/Controller/Ensure/Converges.antt =====
-- The ConfigMaps and the Secret are what the builders made, behind their stages
-- (internal/controller/kubenova_controller.go).
use kube_nova_operator.Api.{KubeNova}
use kube_nova_operator.Controller.Action.{Session, on_reply, or_wrap}
use kube_nova_operator.Controller.Action.Ensures.{
  Ensures, Ensures-bind, Ensures-nothing, Ensures-pure, Ensures-raise,
}
use kube_nova_operator.Controller.Cluster.{Cluster}
use kube_nova_operator.Controller.Ensure.{Texts, own}
use kube_nova_operator.Controller.Ensure.Laws.{
  IsNamed, IsStored, StoreLaws, create_or_update-Stored,
}
use kube_nova_operator.Controller.Resources.{ensure_config_map, entries_equal}
use kube_nova_operator.Kube.{ConfigMap, ObjectMeta}
use kube_nova_operator.Prelude.{String, arith, eq_iff, refl, true, ◌==◌, ◌≡◌}
use kube_nova_operator.Prelude.MapLaws.{HasDistinctKeys, maps_equal-lookup}
use kube_nova_operator.Prelude.Maps.{Map, lookup}
use kube_nova_operator.Prelude.Results.{Reply, got, refused}

-- The owner reference does not change the name.
abbrev pub KeepsNames : Cluster → Type 0
KeepsNames c =
    (kn : KubeNova) (m m' : ObjectMeta)
    → c.set_controller_reference kn m ≡ got m'
    → IsNamed m.namespace m.name m'

pub same_entries :
    (wanted existing : Map String)
    → HasDistinctKeys wanted
    → HasDistinctKeys existing
    → entries_equal existing wanted ≡ true
    → (k : String) → lookup k existing ≡ lookup k wanted
same_entries wanted existing dw de h =
    maps_equal-lookup (λ s t. s == t) (λ s t e. ground (arith, eq_iff s t)) existing wanted de dw h

module _ (c : Cluster) (keeps : KeepsNames c) where
  -- The metadata keep their name behind `own`.
  abbrev pub Owned : (m : ObjectMeta) → ObjectMeta → Session c.World → Type 0
  Owned m m' s = IsNamed m.namespace m.name m'

  own_answer :
      (kn : KubeNova) (m : ObjectMeta) (prefix : String) (r : Reply c.ApiError ObjectMeta)
      → c.set_controller_reference kn m ≡ r
      → Ensures (λ _. Unit) (Owned m) (or_wrap prefix r)
  unfolding on_reply
  own_answer kn m prefix (got m') h = Ensures-pure _ (Owned m) m' (λ s _. keeps kn m m' h)
  own_answer kn m prefix (refused e) h = Ensures-raise _ (Owned m) _

  pub own-names :
      (prefix : String) (m : ObjectMeta) → Ensures (λ _. Unit) (Owned m) (own c prefix m)
  unfolding own
  own-names prefix m =
      Ensures-bind _ (λ _ _. Unit) (Owned m) _ _ (Ensures-nothing _ _)
        (λ kn. own_answer kn m prefix _ refl)

  module _
      (laws : StoreLaws c.World c.ApiError ConfigMap
        (λ a. a.metadata)
        (λ a. a.entries)
        c.config_maps)
      (texts : Texts) where
    -- A ConfigMap whose stage ends without error is stored with the entries that were built, in
    -- every case: it was created, it was there with other entries and was rewritten, or it was
    -- there with the same. The entries that were built have distinct keys.
    pub ensure_config_map-converges :
        (cm : ConfigMap)
        → HasDistinctKeys cm.entries
        → Ensures
            (λ _. Unit)
            (λ _ s.
              IsStored c _ _ _ laws texts cm.metadata.namespace cm.metadata.name cm.entries s.world)
            (ensure_config_map c texts cm.metadata.namespace cm)
    unfolding ensure_config_map
    ensure_config_map-converges cm d =
        Ensures-bind _ (Owned cm.metadata) _ _ _ (own-names "设置 OwnerReference 失败" cm.metadata) λ m.
          record {
            at = λ s n.
                (create_or_update-Stored c (λ a. a.metadata) (λ a. a.entries) c.config_maps laws
                    texts cm.metadata.namespace cm.metadata.name cm.entries
                    (λ existing. entries_equal existing.entries cm.entries)
                    (λ existing. record existing { entries = cm.entries })
                    (λ a da h. same_entries cm.entries a.entries d da h) (λ a. refl) (λ a. refl)
                    (record cm { metadata = m }) n refl).at
                  s tt;
          }
