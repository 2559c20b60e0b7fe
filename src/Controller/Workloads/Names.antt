-- ===== src/Controller/Workloads/Names.antt =====
-- The Deployments of the back-end services have distinct names, in whichever order they are visited
-- (BuildAllServices of internal/builder/service.go).
use mathlib.Core.List.{Permᴰ}
use kube_nova_operator.Api.{KubeNova}
use kube_nova_operator.Api.Methods.{is_service_enabled}
use kube_nova_operator.Builder.Checksum.{entry}
use kube_nova_operator.Builder.Service.{ServiceResources}
use kube_nova_operator.Builder.Service.All.{
  ServiceEntry, all_entries, build_all_services, build_entries,
}
use kube_nova_operator.Builder.Service.Pod.{build_deployment, build_service}
use kube_nova_operator.Prelude.{
  All, Bool, Bool-cases, List, String, [], all, arith, eq_iff, false, inl, inr, not, refl, subst,
  true, ◌&&◌, ◌==◌, ◌∷◌, ◌≡◌,
}
use kube_nova_operator.Prelude.Maps.{Map}

-- The services of the loop are of this namespace.
abbrev pub IsOf : String → String × ServiceResources → Type 0
IsOf ns entry = entry.1.deployment.metadata.namespace ≡ ns

-- The Deployment of an entry has another name.
abbrev pub HasOtherName : String → String × ServiceResources → Type 0
HasOtherName held entry = (entry.1.deployment.metadata.name == held) ≡ false

-- No two Deployments have the same name.
abbrev pub HaveOtherNames : Map ServiceResources → Type 0
HaveOtherNames [] = Unit
HaveOtherNames (entry ∷ rest) =
    All (HasOtherName entry.1.deployment.metadata.name) rest × HaveOtherNames rest

module _ {ℓ κ} {A : Type ℓ} (P : A → Type κ) where
  pub All-permᴰ : {l m : List A} → Permᴰ l m → All P l → All P m
  All-permᴰ Permᴰ.nil h = tt
  All-permᴰ (Permᴰ.cons e p) h = (subst P e h.0, All-permᴰ p h.1)
  All-permᴰ (Permᴰ.swap e f) h = (subst P f h.1.0, (subst P e h.0, h.1.1))
  All-permᴰ (Permᴰ.trans p q) h = All-permᴰ q (All-permᴰ p h)

other_sym :
    (a b : String × ServiceResources)
    → HasOtherName a.1.deployment.metadata.name b
    → HasOtherName b.1.deployment.metadata.name a
other_sym a b h = ground (
  arith,
  h,
  eq_iff a.1.deployment.metadata.name b.1.deployment.metadata.name,
  eq_iff b.1.deployment.metadata.name a.1.deployment.metadata.name,
)

pub HaveOtherNames-permᴰ :
    {l m : Map ServiceResources} → Permᴰ l m → HaveOtherNames l → HaveOtherNames m
HaveOtherNames-permᴰ Permᴰ.nil h = tt
HaveOtherNames-permᴰ (Permᴰ.cons {a} {b} {l₁} {l₂} e p) h = (
  subst (λ x. All (HasOtherName x.1.deployment.metadata.name) l₂) e (All-permᴰ _ p h.0),
  HaveOtherNames-permᴰ p h.1,
)
HaveOtherNames-permᴰ (Permᴰ.swap {a} {b} {a'} {b'} {l} e f) h =
    subst (λ x. HaveOtherNames (x ∷ b' ∷ l)) f
      (subst (λ x. HaveOtherNames (b ∷ x ∷ l)) e ((other_sym a b h.0.0, h.1.0), (h.0.1, h.1.1)))
HaveOtherNames-permᴰ (Permᴰ.trans p q) h = HaveOtherNames-permᴰ q (HaveOtherNames-permᴰ p h)

-- No entry of the list builds a Deployment of this name.
abbrev is_new : String → List ServiceEntry → Bool
is_new k = all (λ e. not (e.setup.name == k) && not (k == e.setup.name))

abbrev distinct_names : List ServiceEntry → Bool
distinct_names [] = true
distinct_names (e ∷ es) = is_new e.setup.name es && distinct_names es

module _ (kn : KubeNova) (ns : String) where
  build_entries-IsOf : (es : List ServiceEntry) → All (IsOf ns) (build_entries kn ns es)
  unfolding build_service build_deployment
  build_entries-IsOf [] = tt
  build_entries-IsOf (e ∷ es) = elim (Bool-cases (is_service_enabled e.setting)) [
    | inl on ↦ rw on (refl, build_entries-IsOf es)
    | inr off ↦ rw off (build_entries-IsOf es)
  ]

  build_entries-HasOtherName :
      (k : String) (es : List ServiceEntry)
      → is_new k es ≡ true
      → All (HasOtherName k) (build_entries kn ns es)
  unfolding build_service build_deployment
  build_entries-HasOtherName k [] h = tt
  build_entries-HasOtherName k (e ∷ es) h = elim (Bool-cases (is_service_enabled e.setting)) [
    | inl on ↦ rw on (ground arith, build_entries-HasOtherName k es (ground arith))
    | inr off ↦ rw off (build_entries-HasOtherName k es (ground arith))
  ]

  build_entries-HaveOtherNames :
      (es : List ServiceEntry) → distinct_names es ≡ true → HaveOtherNames (build_entries kn ns es)
  unfolding build_service build_deployment
  build_entries-HaveOtherNames [] h = tt
  build_entries-HaveOtherNames (e ∷ es) h = elim (Bool-cases (is_service_enabled e.setting)) [
    | inl on ↦ rw on (
      build_entries-HasOtherName e.setup.name es (ground arith),
      build_entries-HaveOtherNames es (ground arith),
    )
    | inr off ↦ rw off (build_entries-HaveOtherNames es (ground arith))
  ]

  pub build_all_services-IsOf : All (IsOf ns) (build_all_services kn ns)
  unfolding build_all_services
  build_all_services-IsOf = build_entries-IsOf (all_entries kn)

  pub build_all_services-HaveOtherNames : HaveOtherNames (build_all_services kn ns)
  unfolding build_all_services
  build_all_services-HaveOtherNames = build_entries-HaveOtherNames (all_entries kn) refl

  pub build_all_services-HasOtherName :
      (k : String)
      → is_new k (all_entries kn) ≡ true
      → All (HasOtherName k) (build_all_services kn ns)
  unfolding build_all_services
  build_all_services-HasOtherName k h = build_entries-HasOtherName k (all_entries kn) h
