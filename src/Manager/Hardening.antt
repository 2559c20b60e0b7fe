-- ===== src/Manager/Hardening.antt =====
-- What the flags of cmd/main.go promise of the two servers.
use kube_nova_operator.Manager.Flags.{Flags}
use kube_nova_operator.Manager.Options.{
  ManagerOptions, TlsConfig, manager_options, metrics_server_options, tls_opts,
  webhook_server_options, with_authentication_and_authorization,
}
use kube_nova_operator.Prelude.{
  Bool-cases, List, String, [], arith, eq_iff, false, inl, inr, ne_of_eq-false, refl, some, sym,
  true, ◌==◌, ◌↔◌, ◌∷◌, ◌≡◌, ◌≢◌,
}

-- A server makes its TLS configuration by applying the options in their order.
abbrev pub configure :
    {Other : Type 0} → List (TlsConfig Other → TlsConfig Other) → TlsConfig Other → TlsConfig Other
configure [] c = c
configure (opt ∷ opts) c = configure opts (opt c)

-- The certificate files of a server: all three names, or none.
pub record HasCertificates (path name key dir cert_name key_name : String) : Type 0 where
  pub dir_is : dir ≡ path
  pub named : path ≢ "" → (cert_name ≡ name) × (key_name ≡ key)
  pub unnamed : path ≡ "" → (cert_name ≡ "") × (key_name ≡ "")

-- A server offers HTTP/1.1 only, and otherwise what it would offer without the options.
abbrev pub OffersAsAsked :
    {Other : Type 0} → Flags → List (TlsConfig Other → TlsConfig Other) → TlsConfig Other → Type 0
OffersAsAsked f opts c =
    (f.enable_http2 ≡ false → (configure opts c).next_protos ≡ "http/1.1" ∷ [])
    × ((f.enable_http2 ≡ true → configure opts c ≡ c) × ((configure opts c).other ≡ c.other))

pub record IsHardened {Other : Type 0} (f : Flags) (m : ManagerOptions Other) : Type 0 where
  pub metrics_offers : (c : TlsConfig Other) → OffersAsAsked f m.metrics.tls_opts c
  pub webhook_offers : (c : TlsConfig Other) → OffersAsAsked f m.webhook_server.tls_opts c
  pub filtered :
      (m.metrics.filter_provider ≡ some with_authentication_and_authorization)
      ↔ (m.metrics.secure_serving ≡ true)
  pub metrics_certificates :
      HasCertificates f.metrics_cert_path f.metrics_cert_name f.metrics_cert_key m.metrics.cert_dir
        m.metrics.cert_name m.metrics.key_name
  pub webhook_certificates :
      HasCertificates f.webhook_cert_path f.webhook_cert_name f.webhook_cert_key
        m.webhook_server.cert_dir m.webhook_server.cert_name m.webhook_server.key_name

tls_opts-offers :
    {Other : Type 0} (f : Flags) (c : TlsConfig Other) → OffersAsAsked f (tls_opts f) c
tls_opts-offers f c = elim (Bool-cases f.enable_http2) [
  | inl on ↦ rw on (λ h. absurd (ground (arith, on, h)), (λ h. refl, refl))
  | inr off ↦ rw off (λ h. refl, (λ h. absurd (ground (arith, off, h)), refl))
]

certificates_given :
    (path name key : String) → (path == "") ≡ false → HasCertificates path name key path name key
certificates_given path name key h = record {
  dir_is = refl;
  named = λ e. (refl, refl);
  unnamed = λ e. absurd (ne_of_eq-false path "" h e);
}

certificates_missing :
    (path name key : String) → (path == "") ≡ true → HasCertificates path name key "" "" ""
certificates_missing path name key h = record {
  dir_is = sym ((eq_iff path "").0 h);
  named = λ e. absurd (e ((eq_iff path "").0 h));
  unnamed = λ e. (refl, refl);
}

module _ (Other : Type 0) (f : Flags) where
  -- The same for the options of each server.
  metrics_certified :
      let m = metrics_server_options {Other = Other} f in
      HasCertificates f.metrics_cert_path f.metrics_cert_name f.metrics_cert_key m.cert_dir
        m.cert_name m.key_name
  unfolding metrics_server_options
  metrics_certified = elim (Bool-cases (f.metrics_cert_path == "")) [
    | inl none_given ↦ rw none_given (certificates_missing _ _ _ none_given)
    | inr given ↦ rw given (certificates_given _ _ _ given)
  ]

  webhook_certified :
      let m = webhook_server_options {Other = Other} f in
      HasCertificates f.webhook_cert_path f.webhook_cert_name f.webhook_cert_key m.cert_dir
        m.cert_name m.key_name
  unfolding webhook_server_options
  webhook_certified = elim (Bool-cases (f.webhook_cert_path == "")) [
    | inl none_given ↦ rw none_given (certificates_missing _ _ _ none_given)
    | inr given ↦ rw given (certificates_given _ _ _ given)
  ]

  metrics_opts : (metrics_server_options {Other = Other} f).tls_opts ≡ tls_opts f
  unfolding metrics_server_options
  metrics_opts = elim (Bool-cases (f.metrics_cert_path == "")) [
    | inl none_given ↦ rw none_given refl
    | inr given ↦ rw given refl
  ]

  webhook_opts : (webhook_server_options {Other = Other} f).tls_opts ≡ tls_opts f
  unfolding webhook_server_options
  webhook_opts = elim (Bool-cases (f.webhook_cert_path == "")) [
    | inl none_given ↦ rw none_given refl
    | inr given ↦ rw given refl
  ]

  metrics_filtered :
      ((metrics_server_options {Other = Other} f).filter_provider
        ≡ some with_authentication_and_authorization)
      ↔ ((metrics_server_options {Other = Other} f).secure_serving ≡ true)
  unfolding metrics_server_options
  metrics_filtered = elim (Bool-cases (f.metrics_cert_path == "")) [
    | inl none_given ↦ rw none_given (ground arith)
    | inr given ↦ rw given (ground arith)
  ]

-- For all flags: without `enable-http2` both servers offer HTTP/1.1 only, with it their TLS
-- configuration is left alone; the metrics are behind authentication and authorization exactly if
-- they are served over HTTPS; and each server takes its certificate files from its own flags exactly
-- if their directory is given.
pub manager_options-IsHardened :
    {Other : Type 0} (f : Flags) → IsHardened {Other = Other} f (manager_options f)
unfolding manager_options
manager_options-IsHardened {Other} f = record {
  metrics_offers = λ c. rw (metrics_opts Other f) (tls_opts-offers f c);
  webhook_offers = λ c. rw (webhook_opts Other f) (tls_opts-offers f c);
  filtered = metrics_filtered Other f;
  metrics_certificates = metrics_certified Other f;
  webhook_certificates = webhook_certified Other f;
}
