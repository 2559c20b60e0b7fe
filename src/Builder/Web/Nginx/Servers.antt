-- ===== src/Builder/Web/Nginx/Servers.antt =====
-- The upstreams and the heads of the server blocks, from internal/builder/nginx.go, line by line.
use kube_nova_operator.Prelude.{List, String, [], join, ◌∷◌}

unfoldable pub upstreams : List String
upstreams =
    "# Upstream definitions" ∷ "upstream portal_api {" ∷ "    least_conn;"
    ∷ "    server portal-api:8810 max_fails=3 fail_timeout=30s;" ∷ "    keepalive 32;" ∷ "}" ∷ ""
    ∷ "upstream manager_api {" ∷ "    least_conn;"
    ∷ "    server manager-api:8811 max_fails=3 fail_timeout=30s;" ∷ "    keepalive 32;" ∷ "}" ∷ ""
    ∷ "upstream workload_api {" ∷ "    least_conn;"
    ∷ "    server workload-api:8812 max_fails=3 fail_timeout=30s;" ∷ "    keepalive 32;" ∷ "}" ∷ ""
    ∷ "upstream console_api {" ∷ "    least_conn;"
    ∷ "    server console-api:8818 max_fails=3 fail_timeout=30s;" ∷ "    keepalive 32;" ∷ "}" ∷ []

unfoldable pub minio_upstream : String → List String
minio_upstream endpoint =
    ""
    ∷ "# MinIO upstream - 代理到实际 MinIO 地址"
    ∷ "upstream minio_backend {"
    ∷ "    least_conn;"
    ∷ join ("    server " ∷ endpoint ∷ " max_fails=3 fail_timeout=30s;" ∷ [])
    ∷ "    keepalive 32;"
    ∷ "}"
    ∷ []

unfoldable pub http_head : List String
http_head =
    "" ∷ "# Main HTTP server block" ∷ "server {" ∷ "    listen 80;" ∷ "    server_name _;" ∷ []

unfoldable pub https_redirect : List String
https_redirect = "" ∷ "    # 强制跳转到 HTTPS" ∷ "    return 301 https://$host$request_uri;" ∷ "}" ∷ []

unfoldable pub http_body : List String
http_body =
    "" ∷ "    # Root directory" ∷ "    root /usr/share/nginx/html;" ∷ "    index index.html;" ∷ ""
    ∷ "    # Charset" ∷ "    charset utf-8;" ∷ "" ∷ "    # Security headers"
    ∷ "    add_header X-Frame-Options \"SAMEORIGIN\" always;"
    ∷ "    add_header X-Content-Type-Options \"nosniff\" always;"
    ∷ "    add_header X-XSS-Protection \"1; mode=block\" always;"
    ∷ "    add_header Referrer-Policy \"no-referrer-when-downgrade\" always;"
    ∷ "    add_header Permissions-Policy \"geolocation=(), microphone=(), camera=()\" always;" ∷ ""
    ∷ "    # Rate limiting" ∷ "    limit_req zone=general burst=200 nodelay;"
    ∷ "    limit_conn addr 20;" ∷ "" ∷ "    # Health check endpoint" ∷ "    location /health {"
    ∷ "        access_log off;" ∷ "        return 200 \"healthy\\n\";"
    ∷ "        add_header Content-Type text/plain;" ∷ "    }" ∷ []

unfoldable pub https_head : List String
https_head =
    "" ∷ "# HTTPS server block (NodePort mode)" ∷ "server {" ∷ "    listen 443 ssl http2;"
    ∷ "    server_name _;" ∷ "" ∷ "    # SSL configuration"
    ∷ "    ssl_certificate /etc/nginx/certs/tls.crt;"
    ∷ "    ssl_certificate_key /etc/nginx/certs/tls.key;" ∷ "    ssl_protocols TLSv1.2 TLSv1.3;"
    ∷ "    ssl_ciphers HIGH:!aNULL:!MD5;" ∷ "    ssl_prefer_server_ciphers on;"
    ∷ "    ssl_session_cache shared:SSL:10m;" ∷ "    ssl_session_timeout 10m;" ∷ ""
    ∷ "    # Root directory" ∷ "    root /usr/share/nginx/html;" ∷ "    index index.html;" ∷ ""
    ∷ "    # Charset" ∷ "    charset utf-8;" ∷ "" ∷ "    # Security headers"
    ∷ "    add_header X-Frame-Options \"SAMEORIGIN\" always;"
    ∷ "    add_header X-Content-Type-Options \"nosniff\" always;"
    ∷ "    add_header X-XSS-Protection \"1; mode=block\" always;"
    ∷ "    add_header Referrer-Policy \"no-referrer-when-downgrade\" always;"
    ∷ "    add_header Permissions-Policy \"geolocation=(), microphone=(), camera=()\" always;"
    ∷ "    add_header Strict-Transport-Security \"max-age=31536000; includeSubDomains\" always;"
    ∷ "" ∷ "    # Rate limiting" ∷ "    limit_req zone=general burst=200 nodelay;"
    ∷ "    limit_conn addr 20;" ∷ "" ∷ "    # Health check endpoint" ∷ "    location /health {"
    ∷ "        access_log off;" ∷ "        return 200 \"healthy\\n\";"
    ∷ "        add_header Content-Type text/plain;" ∷ "    }" ∷ []
