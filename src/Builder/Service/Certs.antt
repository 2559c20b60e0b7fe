-- ===== src/Builder/Service/Certs.antt =====
-- The certificate of the object store: the Secret of internal/builder/secret.go names the file, and
-- the Deployment of internal/builder/service.go mounts it.
use kube_nova_operator.Api.{KubeNova}
use kube_nova_operator.Api.Endpoints.{storage_tls_on}
use kube_nova_operator.Api.Spec.{MinioTlsConfig, StorageConfig}
use kube_nova_operator.Builder.Checksum.{entry}
use kube_nova_operator.Builder.Secret.{secret_data}
use kube_nova_operator.Builder.Service.{get_service_volume_mounts}
use kube_nova_operator.Builder.Service.All.{portal_rpc_setup, tls_secret_name}
use kube_nova_operator.Builder.Service.Pod.{service_container}
use kube_nova_operator.Kube.Workload.{Container}
use kube_nova_operator.Prelude.{
  Bool, Bool-cases, Option, String, any, arith, eq_iff, false, if◌then◌else◌, inl, inr, none, not,
  refl, some, true, ◌&&◌, ◌==◌, ◌≡◌,
}
use kube_nova_operator.Prelude.Int.{ℤ}
use kube_nova_operator.Prelude.Maps.{Map}
use kube_nova_operator.Validator.{validate_storage}
use kube_nova_operator.Validator.Sound.{IsValidMinioTls, validate_storage_iff}

-- The certificates are mounted in the container.
abbrev pub mounts_certs : Container → Bool
mounts_certs k = any (λ m. m.mount_path == "/app/etc/minio-certs") k.volume_mounts

-- The Secret names a file for the certificate.
abbrev pub names_ca_file : Map String → Bool
names_ca_file m = not (entry "MINIO_CA_FILE" m == "")

tls_secret_named :
    (s : StorageConfig)
    → IsValidMinioTls s.tls
    → (storage_tls_on s && not (tls_secret_name s == "")) ≡ storage_tls_on s
tls_secret_named s h = named s.tls h
  where
    named :
        (o : Option MinioTlsConfig)
        → IsValidMinioTls o
        → (elim o [ none ↦ false | some t ↦ t.enabled ]
            && not (elim o [ none ↦ "" | some t ↦ if t.enabled then t.secret_name else "" ] == ""))
          ≡ elim o [ none ↦ false | some t ↦ t.enabled ]
    named none h = refl
    named (some t) h = ground (arith, eq_iff t.secret_name "")

ca_entry :
    (kn : KubeNova) (node_ip : String) (node_port : ℤ)
    → entry "MINIO_CA_FILE" (secret_data kn node_ip node_port)
      ≡ (if storage_tls_on kn.spec.storage then "/app/etc/minio-certs/public.crt" else "")
unfolding secret_data
ca_entry kn node_ip node_port = refl

names_iff :
    (b : Bool) (s : String)
    → s ≡ (if b then "/app/etc/minio-certs/public.crt" else "")
    → not (s == "") ≡ b
names_iff true s h = rw h refl
names_iff false s h = rw h refl

-- If the validator accepts the storage configuration, the pod of portal-rpc mounts the certificates
-- exactly if TLS is on, which is exactly if the Secret tells it where the certificate is.
pub portal_rpc-certs :
    {E : Type 0} (kn : KubeNova) (node_ip : String) (node_port : ℤ)
    → validate_storage {E = E} kn.spec.storage ≡ none
    → (mounts_certs (service_container (portal_rpc_setup kn)) ≡ storage_tls_on kn.spec.storage)
      × (names_ca_file (secret_data kn node_ip node_port) ≡ storage_tls_on kn.spec.storage)
unfolding service_container get_service_volume_mounts
portal_rpc-certs kn node_ip node_port h =
    let named = tls_secret_named kn.spec.storage ((validate_storage_iff kn.spec.storage).0 h).tls in
    let file = names_iff (storage_tls_on kn.spec.storage) _ (ca_entry kn node_ip node_port) in
    elim (Bool-cases (storage_tls_on kn.spec.storage)) [
      | inl on ↦ (ground arith, file)
      | inr off ↦ (ground arith, file)
    ]
