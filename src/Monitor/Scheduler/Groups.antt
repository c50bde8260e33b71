-- ===== src/Monitor/Scheduler/Groups.antt =====
-- `SetGroups` accepts exactly the well-formed groups, and what it changes.
use clashpulse.Base.{
  ◌+◌, ◌%◌, ◌≡◌, ◌≢◌, refl, sym, ap, All-of_In, inl, inr, ◌↔◌, String, Bool, true, false, List, [],
  ◌∷◌, Option, none, some, arith, In, IsDistinct, All, Bool-cases, contains-In, In-contains,
  not-In_of_contains, contains-false, =s→eq, eq_iff, is_blank, map,
}
use clashpulse.Monitor.Model.{GroupState}
use clashpulse.Monitor.Scheduler.{
  Shared, GroupError, is_white, check_proxies, check_group, check_groups, same_bool, same_names,
  same_group, same_groups, is_current, replace_groups, set_groups, u64_mod,
}

-- A group that can be monitored.
pub record IsUsable (g : GroupState) : Type 0 where
  pub named : is_white g.group ≡ false
  pub proxies_named : All (λ p. is_white p ≡ false) g.proxies
  pub proxies_distinct : IsDistinct g.proxies
  pub selected : In g.selected g.proxies
  pub probed : g.automation_enabled ≡ true → g.probe_enabled ≡ true

abbrev pub group_name : GroupState → String
group_name g = g.group

-- A snapshot of groups that can be monitored.
pub record IsWellFormed (gs : List GroupState) : Type 0 where
  pub usable : All IsUsable gs
  pub distinct : IsDistinct (map group_name gs)

abbrev Fresh : List String → List String → Type 0
Fresh seen = All (λ p. ¬ In p seen)

abbrev Checked : List String → List String → Type 0
Checked seen ps = All (λ p. is_white p ≡ false) ps × (Fresh seen ps × IsDistinct ps)

Fresh-cons : (p : String) (seen ps : List String) → Fresh seen ps → ¬ In p ps → Fresh (p ∷ seen) ps
Fresh-cons p seen [] f n = tt
Fresh-cons p seen (q ∷ ps) f n = (apart, Fresh-cons p seen ps f.1 (λ m. n (inr m)))
  where
    apart : ¬ In q (p ∷ seen)
    apart (inl e) = n (inl (sym e))
    apart (inr m) = f.0 m

Fresh-tail :
    (p : String) (seen ps : List String) → Fresh (p ∷ seen) ps → Fresh seen ps × (¬ In p ps)
Fresh-tail p seen [] f = (tt, λ m. m)
Fresh-tail p seen (q ∷ ps) f =
    let rest = Fresh-tail p seen ps f.1 in (((λ m. f.0 (inr m)), rest.0), λ m. apart rest.1 m)
  where
    apart : (¬ In p ps) → ¬ In p (q ∷ ps)
    apart n (inl e) = f.0 (inl (sym e))
    apart n (inr m) = n m

check_proxies-Checked :
    (g : String) (seen ps : List String) → check_proxies g seen ps ≡ none → Checked seen ps
unfolding check_proxies
check_proxies-Checked g seen [] h = (tt, (tt, tt))
check_proxies-Checked g seen (p ∷ ps) h =
    let rest = check_proxies-Checked g (p ∷ seen) ps (ground arith) in
    let tail = Fresh-tail p seen ps rest.1.0 in
    (
      (ground arith, rest.0),
      ((not-In_of_contains p seen (ground arith), tail.0), (tail.1, rest.1.1)),
    )

Checked-check_proxies :
    (g : String) (seen ps : List String) → Checked seen ps → check_proxies g seen ps ≡ none
unfolding check_proxies
Checked-check_proxies g seen [] c = refl
Checked-check_proxies g seen (p ∷ ps) (w, (f, d)) = ground (
  arith,
  contains-false p seen f.0,
  w.0,
  Checked-check_proxies g (p ∷ seen) ps (w.1, (Fresh-cons p seen ps f.1 d.0, d.1)),
)

check_group-IsUsable :
    (seen : List String) (g : GroupState)
    → check_group seen g ≡ none
    → IsUsable g × (¬ In g.group seen)
unfolding check_group
check_group-IsUsable seen g h =
    let checked = check_proxies-Checked g.group [] g.proxies (ground arith) in
    (
      record {
        named = ground arith;
        proxies_named = checked.0;
        proxies_distinct = checked.1.1;
        selected = In-contains g.selected g.proxies (ground arith);
        probed = λ a. ground arith;
      },
      not-In_of_contains g.group seen (ground arith),
    )

-- A name that is not white is not empty.
white-blank : (name : String) → is_white name ≡ false → is_blank name ≡ false
white-blank name w = elim (Bool-cases (is_blank name)) [
  | inl e ↦ ground (arith, blank-white (=s→eq name "" e))
  | inr e ↦ e
]
  where
    blank-white : name ≡ "" → is_white name ≡ true
    blank-white e = rw e (unfold is_white in refl)

Fresh-nil : (ps : List String) → Fresh [] ps
Fresh-nil [] = tt
Fresh-nil (p ∷ ps) = ((λ m. m), Fresh-nil ps)

selected-blank : (g : GroupState) → IsUsable g → is_blank g.selected ≡ false
selected-blank g u =
    white-blank g.selected
      (All-of_In (λ p. is_white p ≡ false) g.selected g.proxies u.proxies_named u.selected)

IsUsable-check_group :
    (seen : List String) (g : GroupState)
    → IsUsable g
    → ¬ In g.group seen
    → check_group seen g ≡ none
unfolding check_group
IsUsable-check_group seen g u n =
    let checked =
      Checked-check_proxies g.group [] g.proxies
        (u.proxies_named, (Fresh-nil g.proxies, u.proxies_distinct)) in
    ground (
      arith,
      u.named,
      u.probed,
      contains-false g.group seen n,
      selected-blank g u,
      checked,
      contains-In g.selected g.proxies u.selected,
    )

check_groups-Fresh :
    (seen : List String) (gs : List GroupState)
    → check_groups seen gs ≡ none
    → All IsUsable gs × (Fresh seen (map group_name gs) × IsDistinct (map group_name gs))
unfolding check_groups
check_groups-Fresh seen [] h = (tt, (tt, tt))
check_groups-Fresh seen (g ∷ gs) h =
    let one = check_group-IsUsable seen g (ground arith) in
    let rest = check_groups-Fresh (g.group ∷ seen) gs (ground arith) in
    let tail = Fresh-tail g.group seen (map group_name gs) rest.1.0 in
    ((one.0, rest.0), ((one.1, tail.0), (tail.1, rest.1.1)))

Fresh-check_groups :
    (seen : List String) (gs : List GroupState)
    → All IsUsable gs
    → Fresh seen (map group_name gs)
    → IsDistinct (map group_name gs)
    → check_groups seen gs ≡ none
unfolding check_groups
Fresh-check_groups seen [] u f d = refl
Fresh-check_groups seen (g ∷ gs) u f d = ground (
  arith,
  IsUsable-check_group seen g u.0 f.0,
  Fresh-check_groups (g.group ∷ seen) gs u.1 (Fresh-cons g.group seen (map group_name gs) f.1 d.0)
      d.1,
)

check_groups_iff : (gs : List GroupState) → (check_groups [] gs ≡ none) ↔ IsWellFormed gs
check_groups_iff gs = (
  λ h. let r = check_groups-Fresh [] gs h in record { usable = r.0; distinct = r.1.1 },
  λ w. Fresh-check_groups [] gs w.usable (Fresh-nil (map group_name gs)) w.distinct,
)

same_names-eq : (xs ys : List String) → same_names xs ys ≡ true → xs ≡ ys
unfolding same_names
same_names-eq [] [] h = refl
same_names-eq [] (y ∷ ys) h = cc
same_names-eq (x ∷ xs) [] h = cc
same_names-eq (x ∷ xs) (y ∷ ys) h = ground (arith, eq_iff x y, same_names-eq xs ys)

same_bool-eq : (a b : Bool) → same_bool a b ≡ true → a ≡ b
unfolding same_bool
same_bool-eq true true h = refl
same_bool-eq true false h = cc
same_bool-eq false true h = cc
same_bool-eq false false h = refl

pub same_group-eq : (a b : GroupState) → same_group a b ≡ true → a ≡ b
unfolding same_group
same_group-eq a b h = ground (
  arith,
  eq_iff a.group b.group,
  eq_iff a.selected b.selected,
  same_names-eq a.proxies b.proxies,
  same_bool-eq a.probe_enabled b.probe_enabled,
  same_bool-eq a.automation_enabled b.automation_enabled,
  same_bool-eq a.manual_override b.manual_override,
  same_bool-eq a.switch_in_flight b.switch_in_flight,
)

same_groups-eq : (xs ys : List GroupState) → same_groups xs ys ≡ true → xs ≡ ys
unfolding same_groups
same_groups-eq [] [] h = refl
same_groups-eq [] (y ∷ ys) h = cc
same_groups-eq (x ∷ xs) [] h = cc
same_groups-eq (x ∷ xs) (y ∷ ys) h = ground (arith, same_group-eq x y, same_groups-eq xs ys)

-- What a call of `SetGroups` does, by its argument and the state before.
pub record SetGroupsContract (s : Shared) (gs : List GroupState) (out : Shared × Option GroupError)
    : Type 0 where
  pub accepts : (out.1 ≡ none) ↔ IsWellFormed gs
  pub rejected : out.1 ≢ none → out.0 ≡ s
  pub stored : out.1 ≡ none → out.0.groups ≡ some gs
  pub announced :
      out.1 ≡ none
      → s.groups ≢ some gs
      → (out.0.generation ≡ (s.generation + 1) % u64_mod) × (out.0.wake ≡ true)
  pub untouched : (out.0.requests ≡ s.requests) × (out.0.dial_failures ≡ s.dial_failures)

is_current-eq :
    (old : Option (List GroupState)) (gs : List GroupState)
    → is_current old gs ≡ true
    → old ≡ some gs
unfolding is_current
is_current-eq none gs h = cc
is_current-eq (some old) gs h = ap some (same_groups-eq old gs h)

replace_groups-contract :
    (s : Shared) (gs : List GroupState) (e : Option GroupError)
    → ((e ≡ none) ↔ IsWellFormed gs)
    → SetGroupsContract s gs (replace_groups s gs e)
unfolding replace_groups
replace_groups-contract s gs (some e) i = record {
  accepts = i;
  rejected = λ n. refl;
  stored = λ q. cc;
  announced = λ q n. cc;
  untouched = (refl, refl);
}
replace_groups-contract s gs none i = record {
  accepts = (λ h. i.0 refl, λ w. ground arith);
  rejected = λ n. ground arith;
  stored = λ q. ground (arith, is_current-eq s.groups gs);
  announced =
      λ q n. ground (arith, λ (c : is_current s.groups gs ≡ true). n (is_current-eq s.groups gs c));
  untouched = ground arith;
}

-- `set_groups` returns no error exactly for well-formed groups. On an error the state is as before;
-- else the groups are stored, and where they are new the generation is counted up, modulo 2^64, and
-- the loop is woken. Requests and dial failures are untouched.
pub set_groups-contract :
    (s : Shared) (gs : List GroupState) → SetGroupsContract s gs (set_groups s gs)
unfolding set_groups
set_groups-contract s gs = replace_groups-contract s gs (check_groups [] gs) (check_groups_iff gs)
