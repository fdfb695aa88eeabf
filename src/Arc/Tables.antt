-- ===== src/Arc/Tables.antt =====
-- main/aoip_arc.c: the tables of device properties, a row of twelve bytes at a time as in the source.
use inferno_esp32_p.Prelude.{
  ℕ, zero, suc, List, [], ◌∷◌, ◌++◌, ◌+◌, ◌-◌, ◌*◌, ◌==◌, ltb, not, length, if◌then◌else◌,
}
use inferno_esp32_p.Wire.{byte, rd16, wr32, drr_hdr_len}

abbrev row_1100_1 : List ℕ
row_1100_1 = 0x24 ∷ 0x1f ∷ 0x80 ∷ 0x20 ∷ 0x00 ∷ 0x9c ∷ 0x80 ∷ 0x21 ∷ 0x00 ∷ 0xa0 ∷ 0x00 ∷ 0x22 ∷ []

abbrev row_1100_2 : List ℕ
row_1100_2 = 0x00 ∷ 0x01 ∷ 0x00 ∷ 0x23 ∷ 0x00 ∷ 0x18 ∷ 0x00 ∷ 0x24 ∷ 0x00 ∷ 0x01 ∷ 0x80 ∷ 0x60 ∷ []

abbrev row_1100_3 : List ℕ
row_1100_3 = 0x00 ∷ 0xb0 ∷ 0x00 ∷ 0x62 ∷ 0x00 ∷ 0x01 ∷ 0x00 ∷ 0x63 ∷ 0x00 ∷ 0x01 ∷ 0x02 ∷ 0x01 ∷ []

abbrev row_1100_4 : List ℕ
row_1100_4 = 0x00 ∷ 0x01 ∷ 0x82 ∷ 0x04 ∷ 0x00 ∷ 0xb4 ∷ 0x82 ∷ 0x05 ∷ 0x00 ∷ 0xb8 ∷ 0x02 ∷ 0x0a ∷ []

abbrev row_1100_5 : List ℕ
row_1100_5 = 0x00 ∷ 0x00 ∷ 0x02 ∷ 0x0b ∷ 0x00 ∷ 0x00 ∷ 0x02 ∷ 0x10 ∷ 0x00 ∷ 0x00 ∷ 0x02 ∷ 0x11 ∷ []

abbrev row_1100_6 : List ℕ
row_1100_6 = 0x00 ∷ 0x00 ∷ 0x02 ∷ 0x12 ∷ 0x00 ∷ 0x30 ∷ 0x02 ∷ 0x13 ∷ 0x00 ∷ 0x00 ∷ 0x02 ∷ 0x14 ∷ []

abbrev row_1100_7 : List ℕ
row_1100_7 = 0x00 ∷ 0x00 ∷ 0x02 ∷ 0x22 ∷ 0x13 ∷ 0x8c ∷ 0x83 ∷ 0x01 ∷ 0x00 ∷ 0xbc ∷ 0x83 ∷ 0x06 ∷ []

abbrev row_1100_8 : List ℕ
row_1100_8 = 0x00 ∷ 0xc0 ∷ 0x83 ∷ 0x02 ∷ 0x00 ∷ 0xc4 ∷ 0x83 ∷ 0x21 ∷ 0x00 ∷ 0xc8 ∷ 0x03 ∷ 0x10 ∷ []

abbrev row_1100_9 : List ℕ
row_1100_9 = 0x00 ∷ 0x10 ∷ 0x03 ∷ 0x11 ∷ 0x00 ∷ 0x10 ∷ 0x03 ∷ 0x12 ∷ 0x00 ∷ 0x30 ∷ 0x03 ∷ 0x03 ∷ []

abbrev row_1100_10 : List ℕ
row_1100_10 = 0x00 ∷ 0x02 ∷ 0x83 ∷ 0xf0 ∷ 0x00 ∷ 0xcc ∷ 0x06 ∷ 0x01 ∷ 0x00 ∷ 0x00 ∷ 0x03 ∷ 0x09 ∷ []

abbrev row_1100_11 : List ℕ
row_1100_11 = 0x00 ∷ 0x03 ∷ 0x02 ∷ 0x09 ∷ 0x00 ∷ 0x01 ∷ 0x00 ∷ 0x00 ∷ 0x00 ∷ 0x00 ∷ 0x00 ∷ 0x00 ∷ []

abbrev row_1100_12 : List ℕ
row_1100_12 = 0x00 ∷ 0x00 ∷ 0x00 ∷ 0x00 ∷ 0x00 ∷ 0x00 ∷ 0x00 ∷ 0x00 ∷ 0x00 ∷ 0x00 ∷ 0x00 ∷ 0x00 ∷ []

abbrev row_1100_13 : List ℕ
row_1100_13 = 0x00 ∷ 0x00 ∷ 0x00 ∷ 0x00 ∷ 0xbb ∷ 0x80 ∷ 0x00 ∷ 0x00 ∷ 0x00 ∷ 0x00 ∷ 0x00 ∷ 0x00 ∷ []

abbrev row_1100_14 : List ℕ
row_1100_14 = 0x00 ∷ 0x00 ∷ 0x00 ∷ 0x00 ∷ 0x00 ∷ 0x00 ∷ 0x00 ∷ 0x00 ∷ 0x00 ∷ 0x00 ∷ 0xef ∷ 0x45 ∷ []

abbrev row_1100_15 : List ℕ
row_1100_15 = 0x00 ∷ 0x00 ∷ 0x00 ∷ 0x0f ∷ 0x42 ∷ 0x40 ∷ 0x00 ∷ 0x07 ∷ 0xa1 ∷ 0x20 ∷ 0x00 ∷ 0x07 ∷ []

abbrev row_1100_16 : List ℕ
row_1100_16 = 0xa1 ∷ 0x20 ∷ 0x00 ∷ 0x03 ∷ 0xd0 ∷ 0x90 ∷ 0x01 ∷ 0x35 ∷ 0xf1 ∷ 0xb4 ∷ 0x00 ∷ 0x1e ∷ []

abbrev row_1100_17 : List ℕ
row_1100_17 = 0x84 ∷ 0x80 ∷ 0x00 ∷ 0x00 ∷ 0x00 ∷ 0x05 ∷ 0x00 ∷ 0x00 ∷ 0x00 ∷ 0x00 ∷ []

-- What it holds at the start.
abbrev pub arc_1100_body : List ℕ
arc_1100_body =
    row_1100_1
    ++ (row_1100_2
        ++ (row_1100_3
            ++ (row_1100_4
                ++ (row_1100_5
                    ++ (row_1100_6
                        ++ (row_1100_7
                            ++ (row_1100_8
                                ++ (row_1100_9
                                    ++ (row_1100_10
                                        ++ (row_1100_11
                                            ++ (row_1100_12
                                                ++ (row_1100_13
                                                    ++ (row_1100_14
                                                        ++ (row_1100_15
                                                            ++ (row_1100_16
                                                            ++ (row_1100_17))))))))))))))))

abbrev row_1102_1 : List ℕ
row_1102_1 = 0x00 ∷ 0x1f ∷ 0x80 ∷ 0x20 ∷ 0x00 ∷ 0x01 ∷ 0x80 ∷ 0x21 ∷ 0x00 ∷ 0x03 ∷ 0x00 ∷ 0x22 ∷ []

abbrev row_1102_2 : List ℕ
row_1102_2 = 0x00 ∷ 0x03 ∷ 0x00 ∷ 0x23 ∷ 0x00 ∷ 0x03 ∷ 0x00 ∷ 0x24 ∷ 0x00 ∷ 0x01 ∷ 0x80 ∷ 0x60 ∷ []

abbrev row_1102_3 : List ℕ
row_1102_3 = 0x00 ∷ 0x03 ∷ 0x00 ∷ 0x62 ∷ 0x00 ∷ 0x03 ∷ 0x00 ∷ 0x63 ∷ 0x00 ∷ 0x01 ∷ 0x02 ∷ 0x01 ∷ []

abbrev row_1102_4 : List ℕ
row_1102_4 = 0x00 ∷ 0x03 ∷ 0x82 ∷ 0x04 ∷ 0x00 ∷ 0x03 ∷ 0x82 ∷ 0x05 ∷ 0x00 ∷ 0x03 ∷ 0x02 ∷ 0x0a ∷ []

abbrev row_1102_5 : List ℕ
row_1102_5 = 0x00 ∷ 0x01 ∷ 0x02 ∷ 0x0b ∷ 0x00 ∷ 0x01 ∷ 0x02 ∷ 0x10 ∷ 0x00 ∷ 0x03 ∷ 0x02 ∷ 0x11 ∷ []

abbrev row_1102_6 : List ℕ
row_1102_6 = 0x00 ∷ 0x03 ∷ 0x02 ∷ 0x12 ∷ 0x00 ∷ 0x03 ∷ 0x02 ∷ 0x13 ∷ 0x00 ∷ 0x01 ∷ 0x02 ∷ 0x14 ∷ []

abbrev row_1102_7 : List ℕ
row_1102_7 = 0x00 ∷ 0x01 ∷ 0x02 ∷ 0x22 ∷ 0x00 ∷ 0x03 ∷ 0x83 ∷ 0x01 ∷ 0x00 ∷ 0x03 ∷ 0x83 ∷ 0x06 ∷ []

abbrev row_1102_8 : List ℕ
row_1102_8 = 0x00 ∷ 0x01 ∷ 0x83 ∷ 0x02 ∷ 0x00 ∷ 0x01 ∷ 0x83 ∷ 0x21 ∷ 0x00 ∷ 0x01 ∷ 0x03 ∷ 0x10 ∷ []

abbrev row_1102_9 : List ℕ
row_1102_9 = 0x00 ∷ 0x01 ∷ 0x03 ∷ 0x11 ∷ 0x00 ∷ 0x01 ∷ 0x03 ∷ 0x12 ∷ 0x00 ∷ 0x01 ∷ 0x03 ∷ 0x03 ∷ []

abbrev row_1102_10 : List ℕ
row_1102_10 = 0x00 ∷ 0x03 ∷ 0x83 ∷ 0xf0 ∷ 0x00 ∷ 0x01 ∷ 0x06 ∷ 0x01 ∷ 0x00 ∷ 0x01 ∷ 0x03 ∷ 0x09 ∷ []

abbrev row_1102_11 : List ℕ
row_1102_11 = 0x00 ∷ 0x01 ∷ 0x02 ∷ 0x09 ∷ 0x00 ∷ 0x01 ∷ []

abbrev pub arc_1102_body : List ℕ
arc_1102_body =
    row_1102_1
    ++ (row_1102_2
        ++ (row_1102_3
            ++ (row_1102_4
                ++ (row_1102_5
                    ++ (row_1102_6
                        ++ (row_1102_7
                            ++ (row_1102_8 ++ (row_1102_9 ++ (row_1102_10 ++ (row_1102_11))))))))))

-- The entries of the table from the index `i` on, `n` of them: the first with the key decides.
unfoldable pub patch_from : ℕ → ℕ → ℕ → ℕ → List ℕ → List ℕ
unfolding rd16 wr32
patch_from zero i key v body = body
patch_from (suc n) i key v body =
    let at = 2 + i * 4 in
    let off = rd16 body (at + 2) in
    let rest = patch_from n (i + 1) key v body in
    if not (rd16 body at == key)
    then rest
    else if ltb off drr_hdr_len
    then body
    else if ltb (length body) (off - drr_hdr_len + 4)
    then body
    else wr32 body (off - drr_hdr_len) v

-- A word into the blob behind the table, at the offset that its key holds.
unfoldable pub arc_1100_patch_u32 : ℕ → ℕ → List ℕ → List ℕ
unfolding patch_from
arc_1100_patch_u32 key v body = patch_from (byte body 1) 0 key v body
