-- ===== src/OsLayer/Wire/Packed.antt =====
-- The payload of a result of src/os_layer/threading/src/worker.cpp: where it fits the buffer, it is
-- the plain encoding of the rows.
use justice_flow.Base.{
  ◌+◌, ◌≤◌, ◌≡◌, sym, ap, ◌∙◌, false, some, List, [], ◌∷◌, ◌++◌, Bytes, ltb, length, length-append,
  append_assoc, append-nil, arith,
}
use justice_flow.Gateway.Frame.{encode_length}
use justice_flow.OsLayer.Wire.{max_frame_size, pack_cells, pack_rows, serialize}

-- Cells that each end in 0.
abbrev pub plain_cells : List Bytes → Bytes
plain_cells [] = []
plain_cells (cell ∷ cells) = (cell ++ 0 ∷ []) ++ plain_cells cells

-- The number of columns of each row, and its cells.
abbrev pub plain_rows : List (List Bytes) → Bytes
plain_rows [] = []
plain_rows (row ∷ rows) = (encode_length (length row) ++ plain_cells row) ++ plain_rows rows

abbrev pub plain : List (List Bytes) → Bytes
plain rows = encode_length (length rows) ++ plain_rows rows

length-cells :
    (cell : Bytes) (cells : List Bytes)
    → length (plain_cells (cell ∷ cells)) ≡ length cell + 1 + length (plain_cells cells)
length-cells cell cells =
    omega (arith, length-append (cell ++ 0 ∷ []) (plain_cells cells), length-append cell (0 ∷ []))

cells_fit :
    (cells : List Bytes) (out : Bytes)
    → length out + length (plain_cells cells) ≤ max_frame_size
    → pack_cells cells out ≡ out ++ plain_cells cells
unfolding pack_cells
cells_fit [] out h = sym (append-nil out)
cells_fit (cell ∷ cells) out h =
    let ih = cells_fit cells (out ++ (cell ++ 0 ∷ [])) (
      omega (
        arith,
        h,
        length-cells cell cells,
        length-append out (cell ++ 0 ∷ []),
        length-append cell (0 ∷ []),
      )) in
    let small : ltb max_frame_size (length out + (length cell + 1)) ≡ false =
      ground (arith, h, length-cells cell cells) in
    rw small (ih ∙ append_assoc out (cell ++ 0 ∷ []) (plain_cells cells))

rows_fit :
    (rows : List (List Bytes)) (out : Bytes)
    → length out + length (plain_rows rows) ≤ max_frame_size
    → pack_rows rows out ≡ some (out ++ plain_rows rows)
unfolding pack_rows
rows_fit [] out h = ap some (sym (append-nil out))
rows_fit (row ∷ rows) out h =
    let head = encode_length (length row) in
    let all = length-append (head ++ plain_cells row) (plain_rows rows) in
    let first = length-append head (plain_cells row) in
    let small : ltb max_frame_size (length out + 4) ≡ false = ground (arith, h, all, first) in
    let cells : pack_cells row (out ++ head) ≡ out ++ (head ++ plain_cells row) =
      cells_fit row (out ++ head) (omega (arith, h, all, first, length-append out head))
      ∙ append_assoc out head (plain_cells row) in
    rw (small, cells)
      (rows_fit rows (out ++ (head ++ plain_cells row))
          (omega (arith, h, all, length-append out (head ++ plain_cells row)))
        ∙ ap some (append_assoc out (head ++ plain_cells row) (plain_rows rows)))

-- A result whose plain encoding fits 65536 bytes is sent as that encoding: nothing is cut off.
pub serialize-plain :
    (rows : List (List Bytes))
    → length (plain rows) ≤ max_frame_size
    → serialize rows ≡ some (plain rows)
unfolding serialize
serialize-plain rows h =
    rows_fit rows (encode_length (length rows))
      (omega (arith, h, length-append (encode_length (length rows)) (plain_rows rows)))
