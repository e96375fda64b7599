-- ===== src/Wire/Racing/Overlap.antt =====
-- Two writes at once (src/session.cpp, sendPacket).
use zway_server.Base.{ℕ, suc, ◌≡◌, refl, List, [], ◌∷◌, ◌++◌}
use zway_server.Wire.Racing.{Turn, go, post, run, new}

module _ (fill : ℕ → List ℕ) where
  -- Both threads look at the flag before either sets it.
  abbrev pub race : ℕ → ℕ → List Turn
  race x y = post x ∷ post y ∷ go 0 ∷ go 0 ∷ go 1 ∷ go 1 ∷ go 0 ∷ go 1 ∷ []

  -- The test and the setting of the flag are two critical sections: with two threads or more, and for
  -- any two packets, there is an order of the steps after which two writes run on the socket at
  -- once, and one in which they were moreover begun in the wrong order.
  pub two_writes :
      (x y n : ℕ)
      → ((run fill (race x y ++ go 0 ∷ go 0 ∷ go 1 ∷ go 1 ∷ []) (new (suc (suc n)))).line.writing
          ≡ x ∷ y ∷ [])
        × ((run fill (race x y ++ go 1 ∷ go 1 ∷ go 0 ∷ go 0 ∷ []) (new (suc (suc n)))).line.writing
            ≡ y ∷ x ∷ [])
  unfolding new run
  two_writes x y n = (refl, refl)
