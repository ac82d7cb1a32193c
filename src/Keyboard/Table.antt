-- ===== src/Keyboard/Table.antt =====
-- The table `scantable_small` of keyboard.c, row by row.
use judd_os.Prelude.{ℕ, List, ◌∷◌, []}

abbrev pub shifted : List ℕ
shifted =
    0 ∷ 0x1001 ∷ 33 ∷ 64 ∷ 35 ∷ 36 ∷ 37 ∷ 94 ∷ 38 ∷ 42 ∷ 40 ∷ 41 ∷ 95 ∷ 43 ∷ 8 ∷ 0x4000 ∷ 81 ∷ 87
    ∷ 69 ∷ 82 ∷ 84 ∷ 89 ∷ 85 ∷ 73 ∷ 79 ∷ 80 ∷ 123 ∷ 125 ∷ 10 ∷ 0x4003 ∷ 65 ∷ 83 ∷ 68 ∷ 70 ∷ 71 ∷ 72
    ∷ 74 ∷ 75 ∷ 76 ∷ 58 ∷ 34 ∷ 126 ∷ 0x4002 ∷ 124 ∷ 90 ∷ 88 ∷ 67 ∷ 86 ∷ 66 ∷ 78 ∷ 77 ∷ 60 ∷ 62 ∷ 63
    ∷ 0x4006 ∷ 42 ∷ 0x4008 ∷ 32 ∷ 0x4001 ∷ 117 ∷ 116 ∷ 115 ∷ 0x1204 ∷ 0x1205 ∷ 0x1206 ∷ 0x1207
    ∷ 0x1208 ∷ 0x1209 ∷ 0x120a ∷ []

abbrev pub capital : List ℕ
capital =
    0 ∷ 0x1001 ∷ 49 ∷ 50 ∷ 51 ∷ 52 ∷ 53 ∷ 54 ∷ 55 ∷ 56 ∷ 57 ∷ 48 ∷ 45 ∷ 61 ∷ 8 ∷ 0x4000 ∷ 81 ∷ 87
    ∷ 69 ∷ 82 ∷ 84 ∷ 89 ∷ 85 ∷ 73 ∷ 79 ∷ 80 ∷ 91 ∷ 93 ∷ 10 ∷ 0x4003 ∷ 65 ∷ 83 ∷ 68 ∷ 70 ∷ 71 ∷ 72
    ∷ 74 ∷ 75 ∷ 76 ∷ 59 ∷ 39 ∷ 96 ∷ 0x4002 ∷ 92 ∷ 90 ∷ 88 ∷ 67 ∷ 86 ∷ 66 ∷ 78 ∷ 77 ∷ 44 ∷ 46 ∷ 47
    ∷ 0x4006 ∷ 42 ∷ 0x4008 ∷ 32 ∷ 0x4001 ∷ 117 ∷ 116 ∷ 115 ∷ 0x1204 ∷ 0x1205 ∷ 0x1206 ∷ 0x1207
    ∷ 0x1208 ∷ 0x1209 ∷ 0x120a ∷ []

abbrev pub with_alt : List ℕ
with_alt =
    0 ∷ 0x1001 ∷ 118 ∷ 50 ∷ 51 ∷ 52 ∷ 53 ∷ 54 ∷ 55 ∷ 56 ∷ 57 ∷ 48 ∷ 45 ∷ 61 ∷ 8 ∷ 0x4000 ∷ 113 ∷ 119
    ∷ 101 ∷ 114 ∷ 116 ∷ 121 ∷ 117 ∷ 105 ∷ 111 ∷ 112 ∷ 91 ∷ 93 ∷ 10 ∷ 0x4003 ∷ 97 ∷ 115 ∷ 100 ∷ 102
    ∷ 103 ∷ 104 ∷ 106 ∷ 107 ∷ 108 ∷ 59 ∷ 39 ∷ 96 ∷ 0x4002 ∷ 92 ∷ 122 ∷ 120 ∷ 99 ∷ 118 ∷ 98 ∷ 110
    ∷ 109 ∷ 44 ∷ 46 ∷ 47 ∷ 0x4006 ∷ 42 ∷ 0x4008 ∷ 32 ∷ 0x4001 ∷ 0x4000 ∷ 0x4010 ∷ 0x4020 ∷ 0x1204
    ∷ 0x1205 ∷ 0x1206 ∷ 0x1207 ∷ 0x1208 ∷ 0x1209 ∷ 0x120a ∷ []

abbrev pub with_ctrl : List ℕ
with_ctrl =
    0 ∷ 0x1001 ∷ 49 ∷ 50 ∷ 51 ∷ 52 ∷ 53 ∷ 54 ∷ 55 ∷ 56 ∷ 57 ∷ 48 ∷ 45 ∷ 61 ∷ 8 ∷ 0x4000 ∷ 113 ∷ 119
    ∷ 101 ∷ 114 ∷ 116 ∷ 121 ∷ 117 ∷ 105 ∷ 111 ∷ 112 ∷ 91 ∷ 93 ∷ 10 ∷ 0x4003 ∷ 97 ∷ 115 ∷ 100 ∷ 102
    ∷ 103 ∷ 104 ∷ 106 ∷ 107 ∷ 119 ∷ 59 ∷ 39 ∷ 96 ∷ 0x4002 ∷ 92 ∷ 122 ∷ 120 ∷ 99 ∷ 118 ∷ 98 ∷ 110
    ∷ 109 ∷ 44 ∷ 46 ∷ 47 ∷ 0x4006 ∷ 42 ∷ 0x4008 ∷ 32 ∷ 0x4001 ∷ 117 ∷ 116 ∷ 115 ∷ 0x1204 ∷ 0x1205
    ∷ 0x1206 ∷ 0x1207 ∷ 0x1208 ∷ 0x1209 ∷ 0x120a ∷ []

abbrev pub plain : List ℕ
plain =
    0 ∷ 0x1001 ∷ 49 ∷ 50 ∷ 51 ∷ 52 ∷ 53 ∷ 54 ∷ 55 ∷ 56 ∷ 57 ∷ 48 ∷ 45 ∷ 61 ∷ 8 ∷ 0x4000 ∷ 113 ∷ 119
    ∷ 101 ∷ 114 ∷ 116 ∷ 121 ∷ 117 ∷ 105 ∷ 111 ∷ 112 ∷ 91 ∷ 93 ∷ 10 ∷ 0x4003 ∷ 97 ∷ 115 ∷ 100 ∷ 102
    ∷ 103 ∷ 104 ∷ 106 ∷ 107 ∷ 108 ∷ 59 ∷ 39 ∷ 96 ∷ 0x4002 ∷ 92 ∷ 122 ∷ 120 ∷ 99 ∷ 118 ∷ 98 ∷ 110
    ∷ 109 ∷ 44 ∷ 46 ∷ 47 ∷ 0x4006 ∷ 42 ∷ 0x4008 ∷ 32 ∷ 0x4001 ∷ 117 ∷ 116 ∷ 115 ∷ 0x1204 ∷ 0x1205
    ∷ 0x1206 ∷ 0x1207 ∷ 0x1208 ∷ 0x1209 ∷ 0x120a ∷ []
