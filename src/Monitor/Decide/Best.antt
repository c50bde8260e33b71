-- ===== src/Monitor/Decide/Best.antt =====
-- The candidate loop returns the best of the candidates that it does not pass over.
use clashpulse.Base.{
  ◌≡◌, refl, sym, ap, ◌∙◌, ◌⊎◌, inl, inr, String, true, false, List, [], ◌∷◌, Option, none, some,
  arith, In, Bool-cases,
}
use mathlib.Core.Path.{subst}
use mathlib.Core.Option.{some-injective}
use clashpulse.Monitor.Model.{Stability}
use clashpulse.Monitor.Decide.{steadier, Named, better, best_from}
use clashpulse.Monitor.Decide.Order.{steadier_irrefl, steadier_trans}

-- No candidate of the list is steadier than `best`.
abbrev pub Unbeaten : (String → Option Stability) → Named → List String → Type 0
Unbeaten stats best ps =
    (c : String) (sc : Stability)
    → In c ps
    → stats c ≡ some sc
    → steadier sc c best.stats best.name ≡ false

-- Where `best` comes from.
abbrev pub Chosen : (String → Option Stability) → Named → List String → Type 0
Chosen stats best ps = In best.name ps × (stats best.name ≡ some best.stats)

module _ (stats : String → Option Stability) where
  -- Each step keeps the old best or takes the new candidate, whichever nothing seen so far beats.
  pub record Keeps (old : Option Named) (p : String) (new : Named) : Type 0 where
    pub source : (old ≡ some new) ⊎ ((p ≡ new.name) × (stats p ≡ some new.stats))
    pub fresh : (sc : Stability) → stats p ≡ some sc → steadier sc p new.stats new.name ≡ false
    pub carried :
        (o : Named) (c : String) (sc : Stability)
        → old ≡ some o
        → steadier sc c o.stats o.name ≡ false
        → steadier sc c new.stats new.name ≡ false

  replaced :
      (p : String) (s : Stability) (old : Named)
      → stats p ≡ some s
      → steadier s p old.stats old.name ≡ true
      → Keeps (some old) p (record { name = p; stats = s })
  replaced p s old e t = record {
    source = inr (refl, e);
    fresh = λ sc q. ground (arith, steadier_irrefl s p);
    carried = λ o c sc q k. beaten o c sc q k (Bool-cases (steadier sc c s p));
  }
    where
      beaten :
          (o : Named) (c : String) (sc : Stability)
          → some old ≡ some o
          → steadier sc c o.stats o.name ≡ false
          → (steadier sc c s p ≡ true) ⊎ (steadier sc c s p ≡ false)
          → steadier sc c s p ≡ false
      beaten o c sc q k (inl y) = ground (arith, steadier_trans sc s old.stats c p old.name y t)
      beaten o c sc q k (inr n) = n

  kept :
      (p : String) (s : Stability) (old : Named)
      → stats p ≡ some s
      → steadier s p old.stats old.name ≡ false
      → Keeps (some old) p old
  kept p s old e f = record {
    source = inl refl;
    fresh = λ sc q. ground arith;
    carried = λ o c sc q k. ground arith;
  }

  better-Keeps :
      (p : String) (s : Option Stability) (old : Option Named) (new : Named)
      → stats p ≡ s
      → better p s old ≡ some new
      → Keeps old p new
  unfolding better
  better-Keeps p none old new e h = record {
    source = inl h;
    fresh = λ sc q. cc;
    carried = λ o c sc q k. ground arith;
  }
  better-Keeps p (some s) none new e h = record {
    source = inr (ground arith, ground arith);
    fresh = λ sc q. ground (arith, steadier_irrefl s p);
    carried = λ o c sc q k. cc;
  }
  better-Keeps p (some s) (some old) new e h = elim (Bool-cases (steadier s p old.stats old.name)) [
    | inl t ↦ subst (Keeps (some old) p) (some-injective _ _ (rw t at h)) (replaced p s old e t)
    | inr f ↦ subst (Keeps (some old) p) (some-injective _ _ (rw f at h)) (kept p s old e f)
  ]

  better-none :
      (p : String) (s : Option Stability) (old : Option Named)
      → better p s old ≡ none
      → (s ≡ none) × (old ≡ none)
  unfolding better
  better-none p none old h = (refl, h)
  better-none p (some s) none h = cc
  better-none p (some s) (some old) h = ground arith

  -- The loop over `ps` with the best so far: where the result comes from, and that it beats all.
  pub record Result (old : Option Named) (ps : List String) (new : Named) : Type 0 where
    pub source : (old ≡ some new) ⊎ (In new.name ps × (stats new.name ≡ some new.stats))
    pub fresh : Unbeaten stats new ps
    pub carried :
        (o : Named) (c : String) (sc : Stability)
        → old ≡ some o
        → steadier sc c o.stats o.name ≡ false
        → steadier sc c new.stats new.name ≡ false

  best_from-Result :
      (ps : List String) (old : Option Named) (new : Named)
      → best_from stats ps old ≡ some new
      → Result old ps new
  unfolding best_from
  best_from-Result [] old new h = record {
    source = inl h;
    fresh = λ c sc m q. absurd m;
    carried = λ o c sc q k. ground arith;
  }
  best_from-Result (p ∷ ps) old new h =
      combine (better p (stats p) old) refl (best_from-Result ps (better p (stats p) old) new h)
    where
      combine :
          (mid : Option Named)
          → better p (stats p) old ≡ mid
          → Result mid ps new
          → Result old (p ∷ ps) new
      combine none e r = nothing (better-none p (stats p) old e)
        where
          nothing : (stats p ≡ none) × (old ≡ none) → Result old (p ∷ ps) new
          nothing z = record {
            source = from_rest r.source;
            fresh = λ c sc m q. first_or_rest c sc q m;
            carried = λ o c sc q f. cc (z.1);
          }
            where
              from_rest :
                  ◌≡◌ {A = Option Named} none (some new)
                    ⊎ (In new.name ps × (stats new.name ≡ some new.stats))
                  → (old ≡ some new) ⊎ (In new.name (p ∷ ps) × (stats new.name ≡ some new.stats))
              from_rest (inl q) = cc
              from_rest (inr (m, q)) = inr (inr m, q)

              first_or_rest :
                  (c : String) (sc : Stability)
                  → stats c ≡ some sc
                  → In c (p ∷ ps)
                  → steadier sc c new.stats new.name ≡ false
              first_or_rest c sc q (inl q') = cc (z.0, ap stats q')
              first_or_rest c sc q (inr m) = r.fresh c sc m q
      combine (some b) e r = joined (better-Keeps p (stats p) old b refl e)
        where
          joined : Keeps old p b → Result old (p ∷ ps) new
          joined k = record {
            source = source r.source k.source;
            fresh = λ c sc m q. first_or_rest c sc q m;
            carried = λ o c sc q f. r.carried b c sc refl (k.carried o c sc q f);
          }
            where
              source :
                  ◌≡◌ {A = Option Named} (some b) (some new)
                    ⊎ (In new.name ps × (stats new.name ≡ some new.stats))
                  → (old ≡ some b) ⊎ ((p ≡ b.name) × (stats p ≡ some b.stats))
                  → (old ≡ some new) ⊎ (In new.name (p ∷ ps) × (stats new.name ≡ some new.stats))
              source (inr (m, q)) _ = inr (inr m, q)
              source (inl q) (inl old_b) = inl (old_b ∙ q)
              source (inl q) (inr (n, st)) =
                  rw (← some-injective _ _ q) (inr (inl (sym n), ap stats (sym n) ∙ st))

              first_or_rest :
                  (c : String) (sc : Stability)
                  → stats c ≡ some sc
                  → In c (p ∷ ps)
                  → steadier sc c new.stats new.name ≡ false
              first_or_rest c sc q (inl e') =
                  r.carried b c sc refl (rw e' (k.fresh sc (ap stats (sym e') ∙ q)))
              first_or_rest c sc q (inr m) = r.fresh c sc m q

  -- The loop over all proxies returns one of them that is measured, and that no other beats.
  pub best_from-best :
      (ps : List String) (best : Named)
      → best_from stats ps none ≡ some best
      → Chosen stats best ps × Unbeaten stats best ps
  best_from-best ps best h =
      (chosen (best_from-Result ps none best h).source, (best_from-Result ps none best h).fresh)
    where
      chosen :
          ◌≡◌ {A = Option Named} none (some best)
            ⊎ (In best.name ps × (stats best.name ≡ some best.stats))
          → In best.name ps × (stats best.name ≡ some best.stats)
      chosen (inl q) = cc
      chosen (inr c) = c

  -- Nothing is chosen only where nothing is measured.
  pub best_from-none :
      (ps : List String) (old : Option Named)
      → best_from stats ps old ≡ none
      → (old ≡ none) × ((c : String) → In c ps → stats c ≡ none)
  unfolding best_from
  best_from-none [] old h = (h, λ c m. absurd m)
  best_from-none (p ∷ ps) old h =
      let rest = best_from-none ps (better p (stats p) old) h in
      let here = better-none p (stats p) old rest.0 in (here.1, λ c m. at c m here.0 rest.1)
    where
      at :
          (c : String)
          → In c (p ∷ ps)
          → stats p ≡ none
          → ((c : String) → In c ps → stats c ≡ none)
          → stats c ≡ none
      at c (inl e) q r = ap stats e ∙ q
      at c (inr m) q r = r c m
