-- ===== src/Builder/Web/Nginx/Minio.antt =====
-- The location of the object store in `buildLocationBlocks` of internal/builder/nginx.go.
use kube_nova_operator.Prelude.{List, String, [], join, ◌∷◌}

unfoldable pub minio_location : String → String → List String
minio_location proxy_scheme path_prefix =
    ""
    ∷ "    # MinIO proxy - 代理到实际 MinIO 地址"
    ∷ join ("    # 协议: " ∷ proxy_scheme ∷ " (根据 MinIO TLS 配置自动选择)" ∷ [])
    ∷ join ("    location " ∷ path_prefix ∷ "/ {" ∷ [])
    ∷ join ("        rewrite ^" ∷ path_prefix ∷ "/(.*)$ /$1 break;" ∷ [])
    ∷ join ("        proxy_pass " ∷ proxy_scheme ∷ "://minio_backend;" ∷ [])
    ∷ "        "
    ∷ "        proxy_set_header Host $http_host;"
    ∷ "        proxy_set_header X-Real-IP $remote_addr;"
    ∷ "        proxy_set_header X-Forwarded-For $proxy_add_x_forwarded_for;"
    ∷ "        proxy_set_header X-Forwarded-Proto $scheme;"
    ∷ "        proxy_set_header X-Forwarded-Host $host;"
    ∷ "        proxy_set_header X-Forwarded-Port $server_port;"
    ∷ "        "
    ∷ "        proxy_set_header X-Forwarded-Server $host;"
    ∷ "        proxy_set_header X-NginX-Proxy true;"
    ∷ "        "
    ∷ "        # HTTP 版本和连接设置"
    ∷ "        proxy_http_version 1.1;"
    ∷ "        proxy_set_header Connection \"\";"
    ∷ "        proxy_set_header Upgrade $http_upgrade;"
    ∷ ""
    ∷ "        # 大文件上传支持"
    ∷ "        client_max_body_size 5000m;"
    ∷ "        proxy_connect_timeout 600s;"
    ∷ "        proxy_send_timeout 600s;"
    ∷ "        proxy_read_timeout 600s;"
    ∷ ""
    ∷ "        proxy_buffering off;"
    ∷ "        proxy_request_buffering off;"
    ∷ "        "
    ∷ "        # 错误处理"
    ∷ "        proxy_next_upstream error timeout http_502 http_503 http_504;"
    ∷ "        proxy_next_upstream_tries 2;"
    ∷ "        "
    ∷ "        access_log /var/log/nginx/minio_access.log main;"
    ∷ "        error_log /var/log/nginx/minio_error.log warn;"
    ∷ []

unfoldable pub minio_ssl : List String
minio_ssl =
    "" ∷ "        # MinIO TLS 配置" ∷ "        proxy_ssl_verify off;"
    ∷ "        proxy_ssl_server_name on;" ∷ "        proxy_ssl_protocols TLSv1.2 TLSv1.3;"
    ∷ "        proxy_ssl_session_reuse on;" ∷ []
