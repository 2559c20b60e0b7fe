-- ===== src/Builder/Web/Nginx/Locations.antt =====
-- The fixed location blocks of `buildLocationBlocks` in internal/builder/nginx.go, line by line.
use kube_nova_operator.Prelude.{List, String, [], ◌∷◌}

unfoldable pub websocket_location : List String
websocket_location =
    "" ∷ "    # WebSocket proxy for console pod" ∷ "    location /ws/v1/pod {"
    ∷ "        proxy_pass http://console_api;" ∷ "" ∷ "        # WebSocket specific headers"
    ∷ "        proxy_http_version 1.1;" ∷ "        proxy_set_header Upgrade $http_upgrade;"
    ∷ "        proxy_set_header Connection \"upgrade\";" ∷ "" ∷ "        # Proxy headers"
    ∷ "        proxy_set_header Host $host;" ∷ "        proxy_set_header X-Real-IP $remote_addr;"
    ∷ "        proxy_set_header X-Forwarded-For $proxy_add_x_forwarded_for;"
    ∷ "        proxy_set_header X-Forwarded-Proto $scheme;"
    ∷ "        proxy_set_header X-Forwarded-Host $host;"
    ∷ "        proxy_set_header X-Forwarded-Port $server_port;" ∷ ""
    ∷ "        # Timeouts for WebSocket" ∷ "        proxy_connect_timeout 7d;"
    ∷ "        proxy_send_timeout 7d;" ∷ "        proxy_read_timeout 7d;" ∷ ""
    ∷ "        # Buffering" ∷ "        proxy_buffering off;"
    ∷ "        proxy_request_buffering off;" ∷ "" ∷ "        # Rate limiting for WebSocket"
    ∷ "        limit_req zone=api burst=10 nodelay;" ∷ "    }" ∷ ""
    ∷ "    # WebSocket proxy for portal site messages" ∷ "    location /ws/v1/site-messages {"
    ∷ "        proxy_pass http://portal_api;" ∷ "" ∷ "        # WebSocket specific headers"
    ∷ "        proxy_http_version 1.1;" ∷ "        proxy_set_header Upgrade $http_upgrade;"
    ∷ "        proxy_set_header Connection \"upgrade\";" ∷ "" ∷ "        # Proxy headers"
    ∷ "        proxy_set_header Host $host;" ∷ "        proxy_set_header X-Real-IP $remote_addr;"
    ∷ "        proxy_set_header X-Forwarded-For $proxy_add_x_forwarded_for;"
    ∷ "        proxy_set_header X-Forwarded-Proto $scheme;"
    ∷ "        proxy_set_header X-Forwarded-Host $host;"
    ∷ "        proxy_set_header X-Forwarded-Port $server_port;" ∷ ""
    ∷ "        # Timeouts for WebSocket" ∷ "        proxy_connect_timeout 7d;"
    ∷ "        proxy_send_timeout 7d;" ∷ "        proxy_read_timeout 7d;" ∷ ""
    ∷ "        # Buffering" ∷ "        proxy_buffering off;"
    ∷ "        proxy_request_buffering off;" ∷ "" ∷ "        # Rate limiting for WebSocket"
    ∷ "        limit_req zone=api burst=10 nodelay;" ∷ "    }" ∷ "" ∷ []

unfoldable pub portal_location : List String
portal_location =
    "    # Portal API proxy" ∷ "    location /portal {" ∷ "        proxy_pass http://portal_api;"
    ∷ "" ∷ "        # Proxy headers" ∷ "        proxy_set_header Host $host;"
    ∷ "        proxy_set_header X-Real-IP $remote_addr;"
    ∷ "        proxy_set_header X-Forwarded-For $proxy_add_x_forwarded_for;"
    ∷ "        proxy_set_header X-Forwarded-Proto $scheme;"
    ∷ "        proxy_set_header X-Forwarded-Host $host;"
    ∷ "        proxy_set_header X-Forwarded-Port $server_port;" ∷ "" ∷ "        # HTTP version"
    ∷ "        proxy_http_version 1.1;" ∷ "        proxy_set_header Connection \"\";" ∷ ""
    ∷ "        # Timeouts" ∷ "        proxy_connect_timeout 30s;"
    ∷ "        proxy_send_timeout 30s;" ∷ "        proxy_read_timeout 30s;" ∷ ""
    ∷ "        # Buffering" ∷ "        proxy_buffering on;" ∷ "        proxy_buffer_size 4k;"
    ∷ "        proxy_buffers 8 4k;" ∷ "        proxy_busy_buffers_size 8k;" ∷ ""
    ∷ "        # Error handling"
    ∷ "        proxy_next_upstream error timeout invalid_header http_500 http_502 http_503 http_504;"
    ∷ "        proxy_next_upstream_tries 2;" ∷ "" ∷ "        # Rate limiting"
    ∷ "        limit_req zone=api burst=20 nodelay;" ∷ "    }" ∷ "" ∷ []

unfoldable pub manager_location : List String
manager_location =
    "    # Manager API proxy" ∷ "    location /manager {" ∷ "        proxy_pass http://manager_api;"
    ∷ "" ∷ "        # Proxy headers" ∷ "        proxy_set_header Host $host;"
    ∷ "        proxy_set_header X-Real-IP $remote_addr;"
    ∷ "        proxy_set_header X-Forwarded-For $proxy_add_x_forwarded_for;"
    ∷ "        proxy_set_header X-Forwarded-Proto $scheme;"
    ∷ "        proxy_set_header X-Forwarded-Host $host;"
    ∷ "        proxy_set_header X-Forwarded-Port $server_port;" ∷ "" ∷ "        # HTTP version"
    ∷ "        proxy_http_version 1.1;" ∷ "        proxy_set_header Connection \"\";" ∷ ""
    ∷ "        # Timeouts" ∷ "        proxy_connect_timeout 30s;"
    ∷ "        proxy_send_timeout 30s;" ∷ "        proxy_read_timeout 30s;" ∷ ""
    ∷ "        # Buffering" ∷ "        proxy_buffering on;" ∷ "        proxy_buffer_size 4k;"
    ∷ "        proxy_buffers 8 4k;" ∷ "        proxy_busy_buffers_size 8k;" ∷ ""
    ∷ "        # Error handling"
    ∷ "        proxy_next_upstream error timeout invalid_header http_500 http_502 http_503 http_504;"
    ∷ "        proxy_next_upstream_tries 2;" ∷ "" ∷ "        # Rate limiting"
    ∷ "        limit_req zone=api burst=20 nodelay;" ∷ "    }" ∷ "" ∷ []
