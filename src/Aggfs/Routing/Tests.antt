-- ===== src/Aggfs/Routing/Tests.antt =====
-- The unit tests of aggfs/src/routing.rs, and instances of the theorems.
use locasta.Base.{◌+◌, ◌≡◌, refl, [], ◌∷◌}
use locasta.Aggfs.Routing.{hash_from, number_from, koyama_hash, route, global_to_local}

-- "f10": 'f' and then ten
f10 : koyama_hash (b'f' ∷ b'1' ∷ b'0' ∷ []) ≡ 102 + 10
unfolding koyama_hash hash_from number_from
f10 = refl

routes : (route 10 0 4 ≡ 2) × (route 10 3 4 ≡ 1) × (global_to_local 5 3 ≡ (1, 2))
unfolding route global_to_local
routes = (refl, refl, refl)
