-- ===== src/Gateway/Rows.antt =====
-- Rows of an answer as JSON text: `rowsToJsonArray` of src/os_layer/ipc/src/domain_socket.cpp and the
-- loop that `handleGetCaseById` prints one row with.
pub mod ReadBack
use justice_flow.Base.{List, [], ◌∷◌, ◌++◌, Bytes, bytes_eq}
use justice_flow.Base.Dict.{Dict, insert}
use justice_flow.Gateway.Json.{json_quote}

unfoldable pub json_pair : Bytes → Bytes → Bytes
unfolding json_quote
json_pair name cell = json_quote name ++ (b':' ∷ json_quote cell)

-- The rounds after the first, each with its comma; the loop ends with the shorter list.
unfoldable pub more_pairs : List Bytes → List Bytes → Bytes
unfolding json_pair
more_pairs [] cells = []
more_pairs (n ∷ names) [] = []
more_pairs (n ∷ names) (c ∷ cells) = b',' ∷ json_pair n c ++ more_pairs names cells

unfoldable pub pairs : List Bytes → List Bytes → Bytes
unfolding json_pair more_pairs
pairs [] cells = []
pairs (n ∷ names) [] = []
pairs (n ∷ names) (c ∷ cells) = json_pair n c ++ more_pairs names cells

unfoldable pub json_row : List Bytes → List Bytes → Bytes
unfolding pairs
json_row names cells = b'{' ∷ pairs names cells ++ (b'}' ∷ [])

more_rows : List Bytes → List (List Bytes) → Bytes
unfolding json_row
more_rows names [] = []
more_rows names (r ∷ rows) = b',' ∷ json_row names r ++ more_rows names rows

rows_inside : List Bytes → List (List Bytes) → Bytes
unfolding json_row more_rows
rows_inside names [] = []
rows_inside names (r ∷ rows) = json_row names r ++ more_rows names rows

unfoldable pub rows_to_json_array : List Bytes → List (List Bytes) → Bytes
unfolding rows_inside
rows_to_json_array names rows = b'[' ∷ rows_inside names rows ++ (b']' ∷ [])
