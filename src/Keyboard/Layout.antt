-- ===== src/Keyboard/Layout.antt =====
-- lib/devs/kb.c: the two layouts that kb_init writes, as the pairs of a scan code and a character. The
-- entries that it does not write are 0.
use jonix.Base.{ℕ, List, [], ◌∷◌, ◌==◌, if◌then◌else◌}

abbrev pub kb_layout : List (ℕ × ℕ)
kb_layout =
    (0, 0)
    ∷ (1, 27)
    ∷ (2, 49)
    ∷ (3, 50)
    ∷ (4, 51)
    ∷ (5, 52)
    ∷ (6, 53)
    ∷ (7, 54)
    ∷ (8, 55)
    ∷ (9, 56)
    ∷ (10, 57)
    ∷ (11, 48)
    ∷ (12, 45)
    ∷ (13, 61)
    ∷ (14, 8)
    ∷ (15, 9)
    ∷ (16, 113)
    ∷ (17, 119)
    ∷ (18, 101)
    ∷ (19, 114)
    ∷ (20, 116)
    ∷ (21, 121)
    ∷ (22, 117)
    ∷ (23, 105)
    ∷ (24, 111)
    ∷ (25, 112)
    ∷ (26, 91)
    ∷ (27, 93)
    ∷ (28, 10)
    ∷ (29, 0)
    ∷ (30, 97)
    ∷ (31, 115)
    ∷ (32, 100)
    ∷ (33, 102)
    ∷ (34, 103)
    ∷ (35, 104)
    ∷ (36, 106)
    ∷ (37, 107)
    ∷ (38, 108)
    ∷ (39, 59)
    ∷ (40, 39)
    ∷ (41, 96)
    ∷ (42, 0)
    ∷ (43, 35)
    ∷ (44, 122)
    ∷ (45, 120)
    ∷ (46, 99)
    ∷ (47, 118)
    ∷ (48, 98)
    ∷ (49, 110)
    ∷ (50, 109)
    ∷ (51, 44)
    ∷ (52, 46)
    ∷ (53, 47)
    ∷ (54, 0)
    ∷ (55, 42)
    ∷ (57, 32)
    ∷ (156, 10)
    ∷ (181, 47)
    ∷ []

abbrev pub kb_layout_sh : List (ℕ × ℕ)
kb_layout_sh =
    (0, 0)
    ∷ (1, 27)
    ∷ (2, 33)
    ∷ (3, 34)
    ∷ (4, 36)
    ∷ (5, 36)
    ∷ (6, 37)
    ∷ (7, 94)
    ∷ (8, 38)
    ∷ (9, 42)
    ∷ (10, 40)
    ∷ (11, 41)
    ∷ (12, 95)
    ∷ (13, 43)
    ∷ (14, 8)
    ∷ (15, 9)
    ∷ (16, 81)
    ∷ (17, 87)
    ∷ (18, 69)
    ∷ (19, 82)
    ∷ (20, 84)
    ∷ (21, 89)
    ∷ (22, 85)
    ∷ (23, 73)
    ∷ (24, 79)
    ∷ (25, 80)
    ∷ (26, 123)
    ∷ (27, 125)
    ∷ (28, 10)
    ∷ (29, 0)
    ∷ (30, 65)
    ∷ (31, 83)
    ∷ (32, 68)
    ∷ (33, 70)
    ∷ (34, 71)
    ∷ (35, 72)
    ∷ (36, 74)
    ∷ (37, 75)
    ∷ (38, 76)
    ∷ (39, 58)
    ∷ (40, 64)
    ∷ (41, 32)
    ∷ (42, 0)
    ∷ (43, 126)
    ∷ (44, 90)
    ∷ (45, 88)
    ∷ (46, 67)
    ∷ (47, 86)
    ∷ (48, 66)
    ∷ (49, 78)
    ∷ (50, 77)
    ∷ (51, 60)
    ∷ (52, 62)
    ∷ (53, 63)
    ∷ (54, 0)
    ∷ (55, 42)
    ∷ (57, 32)
    ∷ []

-- The character of a scan code.
unfoldable pub key : List (ℕ × ℕ) → ℕ → ℕ
key [] c = 0
key ((code, char) ∷ keys) c = if code == c then char else key keys c
