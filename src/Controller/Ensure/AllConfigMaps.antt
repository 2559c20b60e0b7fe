-- ===== src/Controller/Ensure/AllConfigMaps.antt =====
-- All ConfigMaps are stored, behind their stage
-- (reconcileConfigMaps of internal/controller/kubenova_controller.go).
use kube_nova_operator.Api.{KubeNova}
use kube_nova_operator.Builder.ConfigMaps.{build_all_config_maps}
use kube_nova_operator.Controller.Action.Ensures.{
  Ensures, Ensures-along, Ensures-and, Ensures-bind, Ensures-pure, Ensures-self,
}
use kube_nova_operator.Controller.Cluster.{Cluster}
use kube_nova_operator.Controller.Ensure.{Texts}
use kube_nova_operator.Controller.Ensure.Apart.{NamesApart, keeps_apart}
use kube_nova_operator.Controller.Ensure.Converges.{KeepsNames, ensure_config_map-converges}
use kube_nova_operator.Controller.Ensure.Keeps.{KeepsWorld, create_or_update-Kept, own-Kept}
use kube_nova_operator.Controller.Ensure.Laws.{IsNamed, IsStored, StoreLaws}
use kube_nova_operator.Controller.Resources.{
  config_map_texts, ensure_config_map, ensure_config_maps, reconcile_config_maps, texts_of,
}
use kube_nova_operator.Kube.{ConfigMap}
use kube_nova_operator.Prelude.{All, List, String, [], arith, false, subst, ◌==◌, ◌∙◌, ◌∷◌, ◌≡◌}
use kube_nova_operator.Prelude.MapLaws.{HasDistinctKeys}

-- Of this namespace, and with distinct keys.
abbrev pub IsFor : String → ConfigMap → Type 0
IsFor ns cm = (cm.metadata.namespace ≡ ns) × HasDistinctKeys cm.entries

abbrev pub IsApartFrom : String → ConfigMap → Type 0
IsApartFrom other cm = (cm.metadata.name == other) ≡ false

-- No two have the same name.
abbrev pub AreApart : List ConfigMap → Type 0
AreApart [] = Unit
AreApart (cm ∷ cms) = All (IsApartFrom cm.metadata.name) cms × AreApart cms

build_all_config_maps-IsFor :
    (kn : KubeNova) (ns : String) → All (IsFor ns) (build_all_config_maps kn ns)
unfolding build_all_config_maps
build_all_config_maps-IsFor kn ns = ground arith

build_all_config_maps-AreApart :
    (kn : KubeNova) (ns : String) → AreApart (build_all_config_maps kn ns)
unfolding build_all_config_maps
build_all_config_maps-AreApart kn ns = ground arith

module _ (c : Cluster) (keeps : KeepsNames c)
    (laws : StoreLaws c.World c.ApiError ConfigMap (λ a. a.metadata) (λ a. a.entries) c.config_maps)
    (apart : NamesApart c.World c.ApiError ConfigMap
      (λ a. a.metadata)
      c.config_maps
      laws.view) where
  -- The ConfigMap is stored with the entries it was built with.
  abbrev pub Holds : String → ConfigMap → c.World → Type 0
  Holds ns cm w = IsStored c _ _ _ laws (texts_of "ConfigMap") ns cm.metadata.name cm.entries w

  module _ (ns : String) (held : ConfigMap) where
    same_view :
        (v w : c.World)
        → laws.view ns held.metadata.name w ≡ laws.view ns held.metadata.name v
        → Holds ns held v
        → Holds ns held w
    same_view v w e (b, (h, k)) = (b, (e ∙ h, k))

    keeps_held :
        (name : String)
        → (name == held.metadata.name) ≡ false
        → KeepsWorld c.config_maps ns name (λ a. IsNamed ns name a.metadata) (Holds ns held)
    keeps_held name h =
        keeps_apart apart ns held.metadata.name (Holds ns held) same_view name
          (λ w a e. (laws.got_is ns name w a e).1.0) h

    -- A round for another name leaves the ConfigMap as it is.
    pub ensure_config_map-Kept :
        (texts : Texts) (cm : ConfigMap)
        → cm.metadata.namespace ≡ ns
        → (cm.metadata.name == held.metadata.name) ≡ false
        → Ensures
            (λ s. Holds ns held s.world)
            (λ _ s. Holds ns held s.world)
            (ensure_config_map c texts ns cm)
    unfolding ensure_config_map
    ensure_config_map-Kept texts cm e h =
        Ensures-bind _ _ _ _ _
          (own-Kept c c.config_maps ns cm.metadata.name (keeps_held _ h) texts keeps
            "设置 OwnerReference 失败" cm.metadata)
          λ m. record {
            at = λ s p.
                (create_or_update-Kept c c.config_maps ns cm.metadata.name
                    (keeps_held cm.metadata.name h) texts _ _ (λ a n. n)
                    (record cm { metadata = m })
                    (subst (λ n. IsNamed n cm.metadata.name m) e p.0)).at
                  s p.1;
          }

    -- So do the rounds for a list of others.
    ensure_config_maps-Kept :
        (cms : List ConfigMap)
        → All (IsFor ns) cms
        → All (IsApartFrom held.metadata.name) cms
        → Ensures
            (λ s. Holds ns held s.world)
            (λ _ s. Holds ns held s.world)
            (ensure_config_maps c ns cms)
    unfolding ensure_config_maps
    ensure_config_maps-Kept [] f h = Ensures-pure _ _ _ (λ s k. k)
    ensure_config_maps-Kept (cm ∷ cms) f h =
        Ensures-bind _ (λ _ s. Holds ns held s.world) _ _ _
          (ensure_config_map-Kept (config_map_texts c cm) cm f.0.0 h.0)
          (λ _. ensure_config_maps-Kept cms f.1 h.1)

  module _ (ns : String) where
    -- One round.
    round-Holds :
        (texts : Texts) (cm : ConfigMap)
        → IsFor ns cm
        → Ensures (λ _. Unit) (λ _ s. Holds ns cm s.world) (ensure_config_map c texts ns cm)
    round-Holds texts cm f =
        subst
          (λ n. Ensures (λ _. Unit) (λ _ s. Holds n cm s.world) (ensure_config_map c texts n cm))
          f.0 (ensure_config_map-converges c keeps laws texts cm f.1)

    ensure_config_maps-Hold :
        (cms : List ConfigMap)
        → All (IsFor ns) cms
        → AreApart cms
        → Ensures
            (λ _. Unit)
            (λ _ s. All (λ cm. Holds ns cm s.world) cms)
            (ensure_config_maps c ns cms)
    unfolding ensure_config_maps
    ensure_config_maps-Hold [] f a = Ensures-pure _ _ _ (λ s k. tt)
    ensure_config_maps-Hold (cm ∷ cms) f a =
        Ensures-bind _ (λ _ s. Holds ns cm s.world) _ _ _
          (round-Holds (config_map_texts c cm) cm f.0)
          λ _. record {
            at = λ s h.
                (Ensures-and _ _ _ _ _ (ensure_config_maps-Kept ns cm cms f.1 a.0)
                    (ensure_config_maps-Hold cms f.1 a.1)).at
                  s (h, tt);
          }

  -- A stage of the ConfigMaps that ends without error leaves all that are built stored, each
  -- with the file that was built for the KubeNova in memory: the rounds do not undo each other, and none is left
  -- out. The server stores what it is sent, leaves the objects of other names as they are, and
  -- setting the owner keeps the name.
  pub reconcile_config_maps-converges :
      (kn : KubeNova)
      → Ensures
          (λ s. s.kube_nova ≡ kn)
          (λ _ s.
            All
              (λ cm. Holds kn.metadata.namespace cm s.world)
              (build_all_config_maps kn kn.metadata.namespace))
          (reconcile_config_maps c)
  unfolding reconcile_config_maps
  reconcile_config_maps-converges kn =
      Ensures-bind _ (λ k s. Unit {0} × (k ≡ kn)) _ _ _ (Ensures-self _ _ (λ s h. (tt, h)))
        λ k.
          Ensures-along _
            (λ j _ s.
              All (λ cm. Holds j.metadata.namespace cm s.world)
                (build_all_config_maps j j.metadata.namespace))
            k _ _
            (ensure_config_maps-Hold k.metadata.namespace _
              (build_all_config_maps-IsFor k k.metadata.namespace)
              (build_all_config_maps-AreApart k k.metadata.namespace))
