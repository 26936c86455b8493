-- ===== src/Agent/StopPhrase.antt =====
-- agent/runtime.cpp: the phrases that stop the agent, in nine languages. Texts are the bytes of UTF-8,
-- and what is not ASCII stands as numbers.
use mylobsterpp.Prelude.{
  ℕ, Bool, true, ◌||◌, ◌==◌, ◌≡◌, refl, ap, List, [], ◌∷◌, ◌++◌, if◌then◌else◌, map, Text, codes,
  to_lower, has_text,
}

abbrev pub is_final_mark : ℕ → Bool
is_final_mark c = c == b'.' || c == b'!' || c == b'?' || c == b',' || c == b';'

abbrev ended : ℕ → Text → Text
ended c [] = if is_final_mark c then [] else c ∷ []
ended c (d ∷ s) = c ∷ d ∷ s

-- The text without the punctuation at its end.
unfoldable pub trim_marks : Text → Text
trim_marks [] = []
trim_marks (c ∷ s) = ended c (trim_marks s)

-- English, Spanish, French and German, compared in lower case.
unfoldable pub lower_phrases : List Text
lower_phrases =
    (codes "stop openclaw")
    ∷ (codes "please stop")
    ∷ (codes "do not do that")
    ∷ (codes "stop")
    ∷ (codes "cancel")
    ∷ (codes "abort")
    ∷ (codes "quit")
    ∷ (codes "stop it")
    ∷ (codes "stop now")
    ∷ (codes "para")
    ∷ (codes "detente")
    ∷ (codes "basta")
    ∷ (97 ∷ 114 ∷ 114 ∷ 195 ∷ 170 ∷ 116 ∷ 101 ∷ [])
    ∷ (97 ∷ 114 ∷ 114 ∷ 195 ∷ 170 ∷ 116 ∷ 101 ∷ 114 ∷ [])
    ∷ (97 ∷ 114 ∷ 114 ∷ 195 ∷ 170 ∷ 116 ∷ 101 ∷ 45 ∷ 116 ∷ 111 ∷ 105 ∷ [])
    ∷ (codes "arrete")
    ∷ (codes "arreter")
    ∷ (codes "stopp")
    ∷ (codes "halt")
    ∷ (104 ∷ 195 ∷ 182 ∷ 114 ∷ 32 ∷ 97 ∷ 117 ∷ 102 ∷ [])
    ∷ (codes "hoer auf")
    ∷ []

-- Chinese, Japanese, Russian, Arabic and Hindi, compared as they are.
unfoldable pub exact_phrases : List Text
exact_phrases =
    (229 ∷ 129 ∷ 156 ∷ 230 ∷ 173 ∷ 162 ∷ [])
    ∷ (229 ∷ 129 ∷ 156 ∷ [])
    ∷ (229 ∷ 136 ∷ 171 ∷ 229 ∷ 129 ∷ 154 ∷ 228 ∷ 186 ∷ 134 ∷ [])
    ∷ (230 ∷ 173 ∷ 162 ∷ 227 ∷ 130 ∷ 129 ∷ 227 ∷ 129 ∷ 166 ∷ [])
    ∷ (227 ∷ 130 ∷ 132 ∷ 227 ∷ 130 ∷ 129 ∷ 227 ∷ 129 ∷ 166 ∷ [])
    ∷ (227 ∷ 130 ∷ 185 ∷ 227 ∷ 131 ∷ 136 ∷ 227 ∷ 131 ∷ 131 ∷ 227 ∷ 131 ∷ 151 ∷ [])
    ∷ (209 ∷ 129 ∷ 209 ∷ 130 ∷ 208 ∷ 190 ∷ 208 ∷ 191 ∷ [])
    ∷ (208 ∷ 190 ∷ 209 ∷ 129 ∷ 209 ∷ 130 ∷ 208 ∷ 176 ∷ 208 ∷ 189 ∷ 208 ∷ 190 ∷ 208 ∷ 178 ∷ 208 ∷ 184
        ∷ 209 ∷ 129 ∷ 209 ∷ 140 ∷ [])
    ∷ (209 ∷ 133 ∷ 208 ∷ 178 ∷ 208 ∷ 176 ∷ 209 ∷ 130 ∷ 208 ∷ 184 ∷ 209 ∷ 130 ∷ [])
    ∷ (216 ∷ 170 ∷ 217 ∷ 136 ∷ 217 ∷ 130 ∷ 217 ∷ 129 ∷ [])
    ∷ (217 ∷ 130 ∷ 217 ∷ 129 ∷ [])
    ∷ (224 ∷ 164 ∷ 176 ∷ 224 ∷ 165 ∷ 129 ∷ 224 ∷ 164 ∷ 149 ∷ 224 ∷ 165 ∷ 139 ∷ [])
    ∷ (224 ∷ 164 ∷ 172 ∷ 224 ∷ 164 ∷ 130 ∷ 224 ∷ 164 ∷ 166 ∷ 32 ∷ 224 ∷ 164 ∷ 149 ∷ 224 ∷ 164 ∷ 176
        ∷ 224 ∷ 165 ∷ 139 ∷ [])
    ∷ []

unfoldable pub is_stop_phrase : (text : Text) → Bool
unfolding trim_marks lower_phrases exact_phrases has_text to_lower
is_stop_phrase text =
    let trimmed = trim_marks text in
    has_text (map to_lower trimmed) lower_phrases || has_text trimmed exact_phrases

trim_marks-append :
    (s : Text) (c : ℕ) → is_final_mark c ≡ true → trim_marks (s ++ c ∷ []) ≡ trim_marks s
unfolding trim_marks
trim_marks-append [] c h = rw h refl
trim_marks-append (d ∷ s) c h = ap (ended d) (trim_marks-append s c h)

-- A punctuation mark more at the end changes nothing: `stop!!` stops as `stop` does.
pub is_stop_phrase-append :
    (s : Text) (c : ℕ) → is_final_mark c ≡ true → is_stop_phrase (s ++ c ∷ []) ≡ is_stop_phrase s
unfolding is_stop_phrase
is_stop_phrase-append s c h = rw (trim_marks-append s c h) refl
