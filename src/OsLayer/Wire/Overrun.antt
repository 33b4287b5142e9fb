-- ===== src/OsLayer/Wire/Overrun.antt =====
-- The payload of a result of src/os_layer/threading/src/worker.cpp that is too large.
use justice_flow.Base.{
  ◌+◌, ◌*◌, ◌≤◌, ◌<◌, ◌≡◌, refl, none, List, [], ◌∷◌, ◌++◌, Bytes, ltb, length, length-append,
  Bool-cases, inl, inr, absurd, arith,
}
use justice_flow.Gateway.Frame.{encode_length}
use justice_flow.OsLayer.Wire.{max_frame_size, pack_cells, pack_rows, serialize}

pack_cells-le : (cells : List Bytes) (out : Bytes) → length out ≤ length (pack_cells cells out)
unfolding pack_cells
pack_cells-le [] out = omega arith
pack_cells-le (cell ∷ cells) out =
    let rest = pack_cells-le cells (out ++ (cell ++ 0 ∷ [])) in
    ground (arith, rest, length-append out (cell ++ 0 ∷ []))

-- Cells never run over the buffer.
pub pack_cells-fits :
    (cells : List Bytes) (out : Bytes)
    → length out ≤ max_frame_size
    → length (pack_cells cells out) ≤ max_frame_size
unfolding pack_cells
pack_cells-fits [] out h = h
pack_cells-fits (cell ∷ cells) out h =
    let out' = out ++ (cell ++ 0 ∷ []) in
    let whole = length-append out (cell ++ 0 ∷ []) in
    elim (Bool-cases (ltb max_frame_size (length out + (length cell + 1)))) [
      | inl past ↦ rw past h
      | inr more ↦
          rw more
            (pack_cells-fits cells out' (ground (arith, more, whole, length-append cell (0 ∷ []))))
    ]

pack_rows-none :
    (rows : List (List Bytes)) (out : Bytes)
    → length out ≤ max_frame_size
    → max_frame_size < length out + 4 * length rows
    → pack_rows rows out ≡ none
unfolding pack_rows
pack_rows-none [] out small h = absurd (omega (arith, small, h))
pack_rows-none (row ∷ rows) out small h =
    let out' = out ++ encode_length (length row) in
    elim (Bool-cases (ltb max_frame_size (length out + 4))) [
      | inl past ↦ rw past refl
      | inr more ↦ rw more (
          pack_rows-none rows (pack_cells row out')
            (pack_cells-fits row out'
              (ground (arith, more, length-append out (encode_length (length row)))))
            (omega
              (arith, h, pack_cells-le row out', length-append out (encode_length (length row)))))
    ]

-- A result of 16384 rows or more runs over the buffer, whatever is in them.
pub serialize-overruns : (rows : List (List Bytes)) → 16_384 ≤ length rows → serialize rows ≡ none
unfolding serialize
serialize-overruns rows h =
    pack_rows-none rows (encode_length (length rows)) (omega arith) (omega (arith, h))
