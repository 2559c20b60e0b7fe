-- ===== src/Builder/Web/Nginx/Static.antt =====
-- More location blocks of `buildLocationBlocks` in internal/builder/nginx.go, line by line.
use kube_nova_operator.Prelude.{List, String, [], ◌∷◌}

unfoldable pub workload_location : List String
workload_location =
    "    # Workload API proxy" ∷ "    location /workload {"
    ∷ "        proxy_pass http://workload_api;" ∷ "" ∷ "        # Proxy headers"
    ∷ "        proxy_set_header Host $host;" ∷ "        proxy_set_header X-Real-IP $remote_addr;"
    ∷ "        proxy_set_header X-Forwarded-For $proxy_add_x_forwarded_for;"
    ∷ "        proxy_set_header X-Forwarded-Proto $scheme;"
    ∷ "        proxy_set_header X-Forwarded-Host $host;"
    ∷ "        proxy_set_header X-Forwarded-Port $server_port;" ∷ "" ∷ "        # HTTP version"
    ∷ "        proxy_http_version 1.1;" ∷ "        proxy_set_header Connection \"\";" ∷ ""
    ∷ "        # Timeouts" ∷ "        proxy_connect_timeout 30s;"
    ∷ "        proxy_send_timeout 30s;" ∷ "        proxy_read_timeout 30s;" ∷ ""
    ∷ "        # Buffering" ∷ "        proxy_buffering on;" ∷ "        proxy_buffer_size 4k;"
    ∷ "        proxy_buffers 8 4k;" ∷ "        proxy_busy_buffers_size 8k;" ∷ ""
    ∷ "        # Error handling"
    ∷ "        proxy_next_upstream error timeout invalid_header http_500 http_502 http_503 http_504;"
    ∷ "        proxy_next_upstream_tries 2;" ∷ "" ∷ "        # Rate limiting"
    ∷ "        limit_req zone=api burst=20 nodelay;" ∷ "    }" ∷ "" ∷ []

unfoldable pub console_location : List String
console_location =
    "    # Console API proxy" ∷ "    location /console {" ∷ "        proxy_pass http://console_api;"
    ∷ "" ∷ "        # Proxy headers" ∷ "        proxy_set_header Host $host;"
    ∷ "        proxy_set_header X-Real-IP $remote_addr;"
    ∷ "        proxy_set_header X-Forwarded-For $proxy_add_x_forwarded_for;"
    ∷ "        proxy_set_header X-Forwarded-Proto $scheme;"
    ∷ "        proxy_set_header X-Forwarded-Host $host;"
    ∷ "        proxy_set_header X-Forwarded-Port $server_port;" ∷ "" ∷ "        # HTTP version"
    ∷ "        proxy_http_version 1.1;" ∷ "        proxy_set_header Connection \"\";" ∷ ""
    ∷ "        # Timeouts - longer for console operations" ∷ "        proxy_connect_timeout 600s;"
    ∷ "        proxy_send_timeout 600s;" ∷ "        proxy_read_timeout 600s;" ∷ ""
    ∷ "        # Buffering - disabled for streaming responses" ∷ "        proxy_buffering off;"
    ∷ "        proxy_request_buffering off;" ∷ "" ∷ "        # Error handling"
    ∷ "        proxy_next_upstream error timeout invalid_header http_500 http_502 http_503 http_504;"
    ∷ "        proxy_next_upstream_tries 2;" ∷ "" ∷ "        # Rate limiting"
    ∷ "        limit_req zone=api burst=20 nodelay;" ∷ "    }" ∷ []

unfoldable pub static_locations : List String
static_locations =
    "" ∷ "    # Static assets - cache for 1 year"
    ∷ "    location ~* ^/(?!storage/).*\\.(jpg|jpeg|png|gif|ico|svg|webp|woff|woff2|ttf|eot|otf)$ {"
    ∷ "\t\texpires 1y;" ∷ "\t\tadd_header Cache-Control \"public, immutable\";"
    ∷ "\t\taccess_log off;" ∷ "" ∷ "" ∷ "        # CORS for fonts"
    ∷ "        location ~* \\.(woff|woff2|ttf|eot|otf)$ {"
    ∷ "            add_header Access-Control-Allow-Origin \"*\";" ∷ "        }" ∷ "    }" ∷ ""
    ∷ "    # JavaScript and CSS - cache for 1 year with revalidation"
    ∷ "    location ~* \\.(js|css)$ {" ∷ "        expires 1y;"
    ∷ "        add_header Cache-Control \"public, must-revalidate\";" ∷ "        access_log off;"
    ∷ "    }" ∷ "" ∷ "    # HTML files - no cache" ∷ "    location ~* \\.html$ {"
    ∷ "        expires -1;"
    ∷ "        add_header Cache-Control \"no-store, no-cache, must-revalidate, proxy-revalidate, max-age=0\";"
    ∷ "    }" ∷ "" ∷ "    # Favicon" ∷ "    location = /favicon.ico {"
    ∷ "        log_not_found off;" ∷ "        access_log off;" ∷ "        expires 1y;" ∷ "    }"
    ∷ "" ∷ "    # Robots" ∷ "    location = /robots.txt {" ∷ "        log_not_found off;"
    ∷ "        access_log off;" ∷ "    }" ∷ "" ∷ "    # Deny access to hidden files"
    ∷ "    location ~ /\\. {" ∷ "        deny all;" ∷ "        access_log off;"
    ∷ "        log_not_found off;" ∷ "    }" ∷ "" ∷ "    # Vue Router - SPA fallback"
    ∷ "    location / {" ∷ "        try_files $uri $uri/ /index.html;" ∷ ""
    ∷ "        # Cache control for HTML"
    ∷ "        add_header Cache-Control \"no-store, no-cache, must-revalidate, proxy-revalidate, max-age=0\";"
    ∷ "" ∷ "        # Security headers"
    ∷ "        add_header X-Frame-Options \"SAMEORIGIN\" always;"
    ∷ "        add_header X-Content-Type-Options \"nosniff\" always;"
    ∷ "        add_header X-XSS-Protection \"1; mode=block\" always;" ∷ "    }" ∷ ""
    ∷ "    # Error pages" ∷ "    error_page 404 /index.html;"
    ∷ "    error_page 500 502 503 504 /50x.html;" ∷ "" ∷ "    location = /50x.html {"
    ∷ "        root /usr/share/nginx/html;" ∷ "        internal;" ∷ "    }" ∷ []
