-- ===== src/Builder/Web/Nginx/MainConf.antt =====
-- `buildNginxConf` of internal/builder/nginx.go, line by line.
use kube_nova_operator.Builder.ConfigMaps.Sections.{lines}
use kube_nova_operator.Prelude.{List, String, [], ◌++◌, ◌∷◌}

main_logging : List String
main_logging =
    "# Nginx main configuration file" ∷ "worker_processes auto;" ∷ "worker_rlimit_nofile 65535;"
    ∷ "" ∷ "error_log /var/log/nginx/error.log warn;" ∷ "" ∷ "events {"
    ∷ "    worker_connections 4096;" ∷ "    use epoll;" ∷ "    multi_accept on;" ∷ "}" ∷ ""
    ∷ "http {" ∷ "    include /etc/nginx/mime.types;" ∷ "    default_type application/octet-stream;"
    ∷ "" ∷ "    # Logging format"
    ∷ "    log_format main '$remote_addr - $remote_user [$time_local] \"$request\" '"
    ∷ "                    '$status $body_bytes_sent \"$http_referer\" '"
    ∷ "                    '\"$http_user_agent\" \"$http_x_forwarded_for\" '"
    ∷ "                    'rt=$request_time uct=\"$upstream_connect_time\" '"
    ∷ "                    'uht=\"$upstream_header_time\" urt=\"$upstream_response_time\"';" ∷ ""
    ∷ "    log_format json escape=json '{'"
    ∷ "                    '\"time_local\":\"$time_local\",'"
    ∷ "                    '\"remote_addr\":\"$remote_addr\",'"
    ∷ "                    '\"remote_user\":\"$remote_user\",'"
    ∷ "                    '\"request\":\"$request\",'"
    ∷ "                    '\"status\":\"$status\",'"
    ∷ "                    '\"body_bytes_sent\":\"$body_bytes_sent\",'"
    ∷ "                    '\"request_time\":\"$request_time\",'"
    ∷ "                    '\"http_referrer\":\"$http_referer\",'"
    ∷ "                    '\"http_user_agent\":\"$http_user_agent\",'"
    ∷ "                    '\"http_x_forwarded_for\":\"$http_x_forwarded_for\",'"
    ∷ "                    '\"upstream_addr\":\"$upstream_addr\",'"
    ∷ "                    '\"upstream_status\":\"$upstream_status\",'"
    ∷ "                    '\"upstream_response_time\":\"$upstream_response_time\",'"
    ∷ "                    '\"upstream_connect_time\":\"$upstream_connect_time\",'"
    ∷ "                    '\"upstream_header_time\":\"$upstream_header_time\"'"
    ∷ "                    '}';" ∷ "" ∷ "    access_log /var/log/nginx/access.log main;" ∷ "" ∷ []

main_limits : List String
main_limits =
    "    # Performance optimization" ∷ "    sendfile on;" ∷ "    tcp_nopush on;"
    ∷ "    tcp_nodelay on;" ∷ "    keepalive_timeout 65;" ∷ "    keepalive_requests 100;"
    ∷ "    types_hash_max_size 2048;" ∷ "    server_tokens off;" ∷ "" ∷ "    # Buffer settings"
    ∷ "    client_body_buffer_size 128k;" ∷ "    client_max_body_size 1024m;"
    ∷ "    client_header_buffer_size 1k;" ∷ "    large_client_header_buffers 4 16k;"
    ∷ "    output_buffers 1 32k;" ∷ "    postpone_output 1460;" ∷ "" ∷ "    # Timeout settings"
    ∷ "    client_header_timeout 15s;" ∷ "    client_body_timeout 15s;" ∷ "    send_timeout 15s;"
    ∷ "" ∷ []

main_compression : List String
main_compression =
    "    # Gzip compression" ∷ "    gzip on;" ∷ "    gzip_vary on;" ∷ "    gzip_proxied any;"
    ∷ "    gzip_comp_level 6;" ∷ "    gzip_types text/plain text/css text/xml text/javascript"
    ∷ "               application/json application/javascript application/xml+rss"
    ∷ "               application/rss+xml font/truetype font/opentype"
    ∷ "               application/vnd.ms-fontobject image/svg+xml;" ∷ "    gzip_disable \"msie6\";"
    ∷ "    gzip_min_length 1000;" ∷ "    gzip_buffers 16 8k;" ∷ "" ∷ "    # Proxy cache settings"
    ∷ "    proxy_cache_path /var/cache/nginx/proxy_cache levels=1:2 keys_zone=api_cache:10m max_size=100m inactive=60m use_temp_path=off;"
    ∷ "    proxy_cache_key \"$scheme$request_method$host$request_uri\";"
    ∷ "    proxy_cache_valid 200 302 10m;" ∷ "    proxy_cache_valid 404 1m;" ∷ ""
    ∷ "    # Rate limiting" ∷ "    limit_req_zone $binary_remote_addr zone=general:10m rate=100r/s;"
    ∷ "    limit_req_zone $binary_remote_addr zone=api:10m rate=50r/s;"
    ∷ "    limit_conn_zone $binary_remote_addr zone=addr:10m;" ∷ ""
    ∷ "    # Include virtual host configs" ∷ "    include /etc/nginx/conf.d/*.conf;" ∷ "}" ∷ []

unfoldable pub build_nginx_conf : String
unfolding main_logging main_limits main_compression
build_nginx_conf = lines (main_logging ++ (main_limits ++ main_compression))
