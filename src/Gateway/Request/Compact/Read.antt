-- ===== src/Gateway/Request/Compact/Read.antt =====
-- `fromJson` of src/os_layer/ipc/src/socket_request.cpp on requests without white space.
use justice_flow.Base.{◌≡◌, false, List, Bytes, All, bytes_beq, bytes_eq}
use justice_flow.Base.Dict.{Dict}

-- A key that none of the names is.
unfoldable pub IsOther : Bytes → List Bytes → Type 0
unfolding bytes_beq
IsOther key names = All (λ n. bytes_beq n key ≡ false) names
