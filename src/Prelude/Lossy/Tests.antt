-- ===== src/Prelude/Lossy/Tests.antt =====
-- Runs of `from_utf8_lossy`.
use mathlib.Core.List.{[], ◌∷◌}
use mathlib.Core.Path.{◌≡◌, refl}
use k8s_1m.Prelude.Lossy.{from_utf8_lossy}

-- `é` stays, a byte that starts no character and a cut one are replaced, and so is each of a surrogate.
lossy_two_bytes : from_utf8_lossy (195 ∷ 169 ∷ 47 ∷ []) ≡ 195 ∷ 169 ∷ 47 ∷ []
unfolding from_utf8_lossy
lossy_two_bytes = refl

lossy_bad_byte : from_utf8_lossy (97 ∷ 255 ∷ 98 ∷ []) ≡ 97 ∷ 239 ∷ 191 ∷ 189 ∷ 98 ∷ []
unfolding from_utf8_lossy
lossy_bad_byte = refl

lossy_cut : from_utf8_lossy (226 ∷ 130 ∷ 97 ∷ []) ≡ 239 ∷ 191 ∷ 189 ∷ 97 ∷ []
unfolding from_utf8_lossy
lossy_cut = refl

lossy_surrogate :
    from_utf8_lossy (237 ∷ 160 ∷ 128 ∷ [])
    ≡ 239 ∷ 191 ∷ 189 ∷ 239 ∷ 191 ∷ 189 ∷ 239 ∷ 191 ∷ 189 ∷ []
unfolding from_utf8_lossy
lossy_surrogate = refl
