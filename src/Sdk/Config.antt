-- ===== src/Sdk/Config.antt =====
-- `_Config` of sdk/python/beacn.py: the addresses of the service.
use Prim.Native.String.{◌∷◌}
use Prim.Native.String
use beacn.Base.{◌≡◌, refl, Bool, ◌||◌, String, if◌then◌else◌}
use beacn.Events.{has_prefix}
use beacn.Sdk.Sse.{rstrip, drop_chars}

-- `url.rstrip("/")`
unfoldable pub base_url : String → String
base_url url = rstrip b'/' url

-- `is_ws`
unfoldable pub is_ws : String → Bool
is_ws b = has_prefix "ws://" b || has_prefix "wss://" b

-- `http_base()`
unfoldable pub http_base : String → String
http_base b =
    if has_prefix "wss://" b
    then String.◌++◌ "https://" (drop_chars 6 b)
    else if has_prefix "ws://" b
    then String.◌++◌ "http://" (drop_chars 5 b)
    else b

-- `ws_base()`
unfoldable pub ws_base : String → String
ws_base b =
    if has_prefix "https://" b
    then String.◌++◌ "wss://" (drop_chars 8 b)
    else if has_prefix "http://" b
    then String.◌++◌ "ws://" (drop_chars 7 b)
    else b

addresses :
    (ws_base (base_url "https://beacn.internal//") ≡ "wss://beacn.internal")
    × (http_base "ws://localhost:8000" ≡ "http://localhost:8000")
unfolding ws_base http_base base_url rstrip
addresses = (refl, refl)
