-- ===== src/Builder/Web/Nginx/Balanced.antt =====
-- Both files of the web server's configuration open and close their blocks in step
-- (internal/builder/nginx.go).
use kube_nova_operator.Api.{KubeNova}
use kube_nova_operator.Api.Endpoints.{
  get_minio_proxy_path, is_minio_proxy_enabled, scheme, storage_tls_on,
}
use kube_nova_operator.Builder.Web.{https_mode}
use kube_nova_operator.Builder.Web.Nginx.{
  build_default_conf, build_http_server_block, build_https_server_block, build_location_blocks,
  default_conf_lines, minio_block,
}
use kube_nova_operator.Builder.Web.Nginx.Braces.{
  IsPlain, Nests, Nests-append, Nests-cons, depth, depth-around, depth-lines, depth_lines,
}
use kube_nova_operator.Builder.Web.Nginx.Locations.{
  manager_location, portal_location, websocket_location,
}
use kube_nova_operator.Builder.Web.Nginx.MainConf.{build_nginx_conf}
use kube_nova_operator.Builder.Web.Nginx.Minio.{minio_location, minio_ssl}
use kube_nova_operator.Builder.Web.Nginx.Servers.{
  http_body, http_head, https_head, https_redirect, minio_upstream, upstreams,
}
use kube_nova_operator.Builder.Web.Nginx.Static.{
  console_location, static_locations, workload_location,
}
use kube_nova_operator.Prelude.{
  Bool, Bool-cases, String, [], false, if◌then◌else◌, inl, inr, refl, some, true, ◌++◌, ◌∙◌, ◌∷◌,
  ◌≡◌,
}

-- The main file does.
nginx_conf_balanced : depth build_nginx_conf 0 ≡ some 0
unfolding depth build_nginx_conf
nginx_conf_balanced = refl

upstreams_depth : Nests upstreams 0 0
unfolding depth_lines depth upstreams
upstreams_depth = record { at = refl }

minio_upstream_depth : (endpoint : String) → IsPlain endpoint → Nests (minio_upstream endpoint) 0 0
unfolding depth_lines depth minio_upstream
minio_upstream_depth endpoint h = Nests-cons {m = 0} refl (
    Nests-cons {m = 0} refl (
      Nests-cons {m = 1} refl (
        Nests-cons {m = 1} refl (
          Nests-cons
            (depth-around "    server " endpoint " max_fails=3 fail_timeout=30s;" 1 1 h refl)
            (record { at = refl })))))

minio_location_depth :
    (tls : Bool) (p : String) → IsPlain p → Nests (minio_location (scheme tls) p) 1 2
unfolding depth_lines depth minio_location
minio_location_depth true p h = Nests-cons {m = 1} refl (
    Nests-cons {m = 1} refl (
      Nests-cons {m = 1} refl (
        Nests-cons (depth-around "    location " p "/ {" 1 1 h refl) (
          Nests-cons (depth-around "        rewrite ^" p "/(.*)$ /$1 break;" 2 2 h refl)
            (record { at = refl })))))
minio_location_depth false p h = Nests-cons {m = 1} refl (
    Nests-cons {m = 1} refl (
      Nests-cons {m = 1} refl (
        Nests-cons (depth-around "    location " p "/ {" 1 1 h refl) (
          Nests-cons (depth-around "        rewrite ^" p "/(.*)$ /$1 break;" 2 2 h refl)
            (record { at = refl })))))

websocket_depth : Nests websocket_location 1 1
unfolding depth_lines depth websocket_location
websocket_depth = record { at = refl }

portal_depth : Nests portal_location 1 1
unfolding depth_lines depth portal_location
portal_depth = record { at = refl }

manager_depth : Nests manager_location 1 1
unfolding depth_lines depth manager_location
manager_depth = record { at = refl }

workload_depth : Nests workload_location 1 1
unfolding depth_lines depth workload_location
workload_depth = record { at = refl }

console_depth : Nests console_location 1 1
unfolding depth_lines depth console_location
console_depth = record { at = refl }

static_depth : Nests static_locations 1 1
unfolding depth_lines depth static_locations
static_depth = record { at = refl }

minio_end : (tls : Bool) → Nests ((if tls then minio_ssl else []) ++ "    }" ∷ []) 2 1
unfolding depth_lines depth minio_ssl
minio_end true = record { at = refl }
minio_end false = record { at = refl }

minio_block_depth : (kn : KubeNova) → IsPlain (get_minio_proxy_path kn) → Nests (minio_block kn) 1 1
unfolding minio_block depth_lines
minio_block_depth kn h = elim (Bool-cases (is_minio_proxy_enabled kn)) [
  | inl on ↦ rw on (
      Nests-append
        (minio_location_depth (storage_tls_on kn.spec.storage) (get_minio_proxy_path kn) h)
        (minio_end (storage_tls_on kn.spec.storage)))
  | inr off ↦ rw off (record { at = refl })
]

locations_depth :
    (kn : KubeNova)
    → IsPlain (get_minio_proxy_path kn)
    → Nests (build_location_blocks kn ++ "}" ∷ []) 1 0
unfolding build_location_blocks depth_lines
locations_depth kn h =
    Nests-append
      (Nests-append websocket_depth (
        Nests-append portal_depth (
          Nests-append manager_depth (
            Nests-append workload_depth
              (Nests-append console_depth (Nests-append (minio_block_depth kn h) static_depth))))))
      (record { at = refl })

http_head_depth : Nests http_head 0 1
unfolding depth_lines depth http_head
http_head_depth = record { at = refl }

https_redirect_depth : Nests https_redirect 1 0
unfolding depth_lines depth https_redirect
https_redirect_depth = record { at = refl }

http_body_depth : Nests http_body 1 1
unfolding depth_lines depth http_body
http_body_depth = record { at = refl }

https_head_depth : Nests https_head 0 1
unfolding depth_lines depth https_head
https_head_depth = record { at = refl }

upstream_part_depth :
    (kn : KubeNova)
    → IsPlain kn.spec.storage.endpoint
    → Nests (if is_minio_proxy_enabled kn then minio_upstream kn.spec.storage.endpoint else []) 0 0
unfolding depth_lines depth
upstream_part_depth kn h = elim (Bool-cases (is_minio_proxy_enabled kn)) [
  | inl on ↦ rw on (minio_upstream_depth kn.spec.storage.endpoint h)
  | inr off ↦ rw off (record { at = refl })
]

module _ (kn : KubeNova) (prefix_plain : IsPlain (get_minio_proxy_path kn)) where
  http_depth : Nests (build_http_server_block kn) 0 0
  unfolding build_http_server_block
  http_depth = Nests-append http_head_depth (elim (Bool-cases (https_mode kn)) [
    | inl on ↦ rw on https_redirect_depth
    | inr off ↦ rw off (Nests-append http_body_depth (locations_depth kn prefix_plain))
  ])

  https_depth : Nests (if https_mode kn then build_https_server_block kn else []) 0 0
  unfolding build_https_server_block depth_lines
  https_depth = elim (Bool-cases (https_mode kn)) [
    | inl on ↦ rw on (Nests-append https_head_depth (locations_depth kn prefix_plain))
    | inr off ↦ rw off (record { at = refl })
  ]

  -- The file of the servers closes each block that it opens and no other, for every combination of
  -- HTTPS and the MinIO proxy, if the endpoint and the path prefix of the configuration hold no
  -- brace.
  pub build_default_conf_balanced :
      IsPlain kn.spec.storage.endpoint → depth (build_default_conf kn) 0 ≡ some 0
  unfolding build_default_conf default_conf_lines
  build_default_conf_balanced endpoint_plain =
      depth-lines (default_conf_lines kn) 0
      ∙ (Nests-append upstreams_depth (
          Nests-append (upstream_part_depth kn endpoint_plain)
            (Nests-append http_depth https_depth))).at
