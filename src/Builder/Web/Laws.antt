-- ===== src/Builder/Web/Laws.antt =====
-- What internal/builder/web.go makes for the two exposures.
use kube_nova_operator.Api.{KubeNova}
use kube_nova_operator.Api.Methods.{
  enabled_https, has_no_secret, ingress_tls_on, validate_web_config,
}
use kube_nova_operator.Api.Spec.{IngressConfig, NodePortHttpsConfig}
use kube_nova_operator.Builder.Service.Routing.{IsRouted}
use kube_nova_operator.Builder.Web.{https_mode, https_secret}
use kube_nova_operator.Builder.Web.Expose.{
  build_web_ingress, build_web_service, default_annotations, get_ingress_annotations, ingress_of,
  ssl_redirect,
}
use kube_nova_operator.Builder.Web.Pod.{
  build_web_deployment, get_web_ports, get_web_volume_mounts, web_container,
}
use kube_nova_operator.Builder.Web.Resources.{WebResources, build_web_resources}
use kube_nova_operator.Kube.Network.{Ingress, IngressPath, Service}
use kube_nova_operator.Kube.Workload.{Container}
use kube_nova_operator.Prelude.{
  Bool, Bool-cases, Option, String, [], all, any, ap, arith, eq_iff, eq_refl, false, if◌then◌else◌,
  inl, inr, none, not, refl, some, true, ◌&&◌, ◌==◌, ◌∙◌, ◌∷◌, ◌≡◌, ◌≢◌,
}
use kube_nova_operator.Prelude.Int.{bool_text, int_eq, pos}
use kube_nova_operator.Prelude.MapLaws.{HasDistinctKeys}
use kube_nova_operator.Prelude.Maps.{Map, insert, insert_all, lookup, lookup-insert}

-- The Service of the web front end selects the pods of its Deployment, whatever the exposure, and
-- each of its ports, 443 in HTTPS mode, is one that the container declares.
pub build_web_service-IsRouted :
    (kn : KubeNova) (namespace : String)
    → IsRouted (build_web_service kn namespace) (build_web_deployment kn namespace)
unfolding build_web_service build_web_deployment web_container get_web_ports
build_web_service-IsRouted kn namespace = record {
  own_pods = ground arith;
  service_pods = ground arith;
  ports = ground arith;
  same_namespace = ground arith;
}

-- A path leads to a port of the Service.
abbrev pub leads_to : Service → IngressPath → Bool
leads_to s p =
    p.service_name == s.metadata.name && any (λ q. int_eq q.port (pos p.service_port)) s.spec.ports

-- Requests for a host, whatever their path, are sent to the Service: a rule for the host has the
-- prefix of all paths, and no path of any rule leads elsewhere.
pub record SendsAll (host : String) (i : Ingress) (s : Service) : Type 0 where
  pub served :
      any
        (λ r. r.host == host && any (λ p. p.path == "/" && p.path_type == "Prefix") r.paths)
        i.rules
      ≡ true
  pub nowhere_else : all (λ r. all (leads_to s) r.paths) i.rules ≡ true
  pub same_namespace : i.metadata.namespace ≡ s.metadata.namespace

-- An Ingress is asked for, with this configuration.
abbrev pub AsksFor : KubeNova → IngressConfig → Type 0
AsksFor kn cfg = (kn.spec.web.expose_type ≡ "ingress") × (kn.spec.web.ingress ≡ some cfg)

-- What is made for an Ingress.
pub record IsExposed (kn : KubeNova) (r : WebResources) : Type 0 where
  pub made :
      (cfg : IngressConfig)
      → AsksFor kn cfg
      → (i : Ingress) × ((r.ingress ≡ some i) × SendsAll cfg.host i r.service)
  pub inside : (cfg : IngressConfig) → AsksFor kn cfg → r.service.spec.kind ≡ "ClusterIP"
  pub only_made : (i : Ingress) → r.ingress ≡ some i → (cfg : IngressConfig) × AsksFor kn cfg

ingress_of-SendsAll :
    (kn : KubeNova) (namespace : String) (cfg : IngressConfig)
    → SendsAll cfg.host (ingress_of kn namespace cfg) (build_web_service kn namespace)
unfolding build_web_service
ingress_of-SendsAll kn namespace cfg = record {
  served = ground (arith, eq_refl cfg.host);
  nowhere_else = ground arith;
  same_namespace = refl;
}

made_if_asked :
    (kn : KubeNova) (namespace : String) (cfg : IngressConfig)
    → AsksFor kn cfg
    → (build_web_resources kn namespace).ingress ≡ some (ingress_of kn namespace cfg)
unfolding build_web_resources build_web_ingress
made_if_asked kn namespace cfg h =
    ap
      (λ o.
        if kn.spec.web.expose_type == "ingress"
        then elim o [ none ↦ none | some i ↦ some (ingress_of kn namespace i) ]
        else none)
      h.1
    ∙ ap (λ b. if b then some (ingress_of kn namespace cfg) else none)
        ((eq_iff kn.spec.web.expose_type "ingress").1 h.0)

asked_if_made :
    (kn : KubeNova) (namespace : String) (o : Option IngressConfig) (i : Ingress)
    → kn.spec.web.ingress ≡ o
    → (if kn.spec.web.expose_type == "ingress"
        then elim o [ none ↦ none | some cfg ↦ some (ingress_of kn namespace cfg) ]
        else none)
      ≡ some i
    → (cfg : IngressConfig) × AsksFor kn cfg
asked_if_made kn namespace none i e h = absurd (ground arith)
asked_if_made kn namespace (some cfg) i e h =
    elim (Bool-cases (kn.spec.web.expose_type == "ingress")) [
      | inl on ↦ (cfg, ((eq_iff kn.spec.web.expose_type "ingress").0 on, e))
      | inr off ↦ absurd (ground arith)
    ]

-- There is an Ingress exactly if the exposure asks for one and it is configured. It is in the
-- namespace of the Service and sends all requests for the configured host to it, and none elsewhere,
-- and the Service is then of type ClusterIP.
pub build_web_resources-IsExposed :
    (kn : KubeNova) (namespace : String) → IsExposed kn (build_web_resources kn namespace)
unfolding build_web_resources build_web_ingress build_web_service
build_web_resources-IsExposed kn namespace = record {
  made = λ cfg h. (
    ingress_of kn namespace cfg,
    (made_if_asked kn namespace cfg h, ingress_of-SendsAll kn namespace cfg),
  );
  inside = λ cfg h. ground (arith, h.0, eq_iff kn.spec.web.expose_type "ingress");
  only_made = λ i. asked_if_made kn namespace kn.spec.web.ingress i refl;
}

-- A TLS certificate is mounted in the web container.
abbrev pub has_certs : Container → Bool
has_certs k = any (λ m. m.name == "tls-certs") k.volume_mounts

ingress_not_nodeport : ◌≢◌ {A = String} "ingress" "nodeport"
ingress_not_nodeport = ground (arith, eq_iff "ingress" "nodeport")

-- A Secret is named exactly if HTTPS is on.
secret_named :
    (b : Bool) (o : Option NodePortHttpsConfig)
    → (b ≡ true → has_no_secret o ≡ false)
    → not (elim o [ none ↦ "" | some h ↦ if b then h.secret_name else "" ] == "")
      ≡ (b && elim o [ none ↦ false | some _ ↦ true ])
secret_named b none h = ground arith
secret_named true (some x) h = ground (arith, h refl)
secret_named false (some x) h = refl

https_secret_named :
    {E : Type 0} (kn : KubeNova)
    → validate_web_config {E = E} kn.spec.web ≡ none
    → not (https_secret kn == "") ≡ https_mode kn
unfolding validate_web_config
https_secret_named kn h =
    secret_named (kn.spec.web.expose_type == "nodeport") (enabled_https kn.spec.web.node_port)
      λ nodeport. ground (
        arith,
        eq_iff kn.spec.web.expose_type "ingress",
        eq_iff kn.spec.web.expose_type "nodeport",
        ingress_not_nodeport,
      )

-- If the validator accepts the web configuration, the web container mounts a certificate exactly if
-- it declares the HTTPS port.
pub get_web_volume_mounts-certs :
    {E : Type 0} (kn : KubeNova)
    → validate_web_config {E = E} kn.spec.web ≡ none
    → has_certs (web_container kn) ≡ any (λ p. p.name == "https") (web_container kn).ports
unfolding web_container get_web_volume_mounts get_web_ports validate_web_config
get_web_volume_mounts-certs kn h = elim (Bool-cases (https_mode kn)) [
  | inl on ↦ ground (arith, https_secret_named kn h)
  | inr off ↦ ground (arith, https_secret_named kn h)
]

-- The value that the annotations end with under a key.
abbrev pub annotation_of : IngressConfig → String → Option String
annotation_of i k = elim (lookup k i.annotations) [
  | some v ↦ some v
  | none ↦ lookup k (default_annotations (ingress_tls_on i))
]

lookup-insert_all :
    (k : String) (a m : Map String)
    → HasDistinctKeys a
    → lookup k (insert_all a m) ≡ elim (lookup k a) [ some v ↦ some v | none ↦ lookup k m ]
lookup-insert_all k [] m d = refl
lookup-insert_all k ((j, v) ∷ a) m d =
    ground (arith, eq_iff j k, lookup-insert_all k a (insert j v m) d.1, lookup-insert j k v m)

-- An annotation of the configuration overrides the default, and every other default stays.
get_ingress_annotations_lem :
    (i : IngressConfig) (k : String)
    → HasDistinctKeys i.annotations
    → lookup k (get_ingress_annotations (some i)) ≡ annotation_of i k
unfolding get_ingress_annotations
get_ingress_annotations_lem i k d =
    lookup-insert_all k i.annotations (default_annotations (ingress_tls_on i)) d

-- Plain requests are redirected exactly if TLS is on, unless the configuration says otherwise.
get_ingress_annotations_redirect :
    (i : IngressConfig)
    → HasDistinctKeys i.annotations
    → lookup ssl_redirect i.annotations ≡ none
    → lookup ssl_redirect (get_ingress_annotations (some i)) ≡ some (bool_text (ingress_tls_on i))
get_ingress_annotations_redirect i d h =
    get_ingress_annotations_lem i ssl_redirect d ∙ ground (arith, h)
