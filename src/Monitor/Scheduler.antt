-- ===== src/Monitor/Scheduler.antt =====
-- monitor/scheduler.go: the state that the scheduler shares with its callers, and the methods that
-- change it under the lock. `loop` holds the state of `Run` (module Loop).
pub mod Groups
pub mod Dial
use clashpulse.Base.{
  ℕ, suc, ◌+◌, ◌-◌, ◌*◌, ◌%◌, String, Bool, true, false, not, ◌&&◌, ◌||◌, List, [], ◌∷◌, Option,
  none, some, if◌then◌else◌, ltb, ◌==◌, ◌=s◌, is_blank, is_space, contains, codes, length,
}
use clashpulse.Base.Assoc.{get, put}
use clashpulse.Monitor.Model.{GroupState, second}
use clashpulse.Monitor.Policy.{Policy}

abbrev pub dial_failure_probe_spacing : ℕ
dial_failure_probe_spacing = 15 * second

abbrev pub u64_mod : ℕ
u64_mod = 18_446_744_073_709_551_616

-- `groups` is `none` while the slice is nil; `requests` and `members` are the key sets of the maps;
-- `wake` is the channel of capacity 1.
pub record Shared : Type 0 where
  pub groups : Option (List GroupState)
  pub generation : ℕ
  pub requests : List String
  pub dial_failures : List (String × ℕ)
  pub last_dial_probe : List (String × ℕ)
  pub members : List String
  pub wake : Bool

unfoldable pub new_shared : Shared
new_shared = record {
  groups = none;
  generation = 0;
  requests = [];
  dial_failures = [];
  last_dial_probe = [];
  members = [];
  wake = false;
}

abbrev pub list_of : Option (List GroupState) → List GroupState
list_of none = []
list_of (some gs) = gs

pub data GroupError : Type 0 where
  blank_group : GroupError
  duplicate_group missing_selection : String → GroupError
  blank_proxy : String → GroupError
  duplicate_proxy : String → String → GroupError
  absent_selection automation_without_probes : String → GroupError

all_space : List ℕ → Bool
unfolding is_space
all_space [] = true
all_space (c ∷ cs) = is_space c && all_space cs

-- `strings.TrimSpace(name) == ""`
unfoldable pub is_white : String → Bool
unfolding all_space
is_white name = all_space (codes name)

-- The loop over a group's proxies. `seen` is `proxySeen`.
unfoldable pub check_proxies : String → List String → List String → Option GroupError
check_proxies group seen [] = none
check_proxies group seen (p ∷ ps) =
    let rest = check_proxies group (p ∷ seen) ps in
    if is_white p
    then some (blank_proxy group)
    else if contains p seen
    then some (duplicate_proxy group p)
    else rest

-- One round of the loop over the groups. `seen` holds the names before it.
unfoldable pub check_group : List String → GroupState → Option GroupError
unfolding check_proxies
check_group seen g =
    if is_white g.group
    then some blank_group
    else if contains g.group seen
    then some (duplicate_group g.group)
    else if is_blank g.selected
    then some (missing_selection g.group)
    else elim (check_proxies g.group [] g.proxies) [
      | some e ↦ some e
      | none ↦
          if not (contains g.selected g.proxies)
          then some (absent_selection g.group)
          else if g.automation_enabled && not g.probe_enabled
          then some (automation_without_probes g.group)
          else none
    ]

unfoldable pub check_groups : List String → List GroupState → Option GroupError
check_groups seen [] = none
check_groups seen (g ∷ gs) =
    let rest = check_groups (g.group ∷ seen) gs in
    elim (check_group seen g) [ some e ↦ some e | none ↦ rest ]

same_bool : Bool → Bool → Bool
same_bool true b = b
same_bool false b = not b

same_names : List String → List String → Bool
same_names [] [] = true
same_names [] (y ∷ ys) = false
same_names (x ∷ xs) [] = false
same_names (x ∷ xs) (y ∷ ys) = x =s y && same_names xs ys

-- `reflect.DeepEqual` of two groups, and of two lists of groups.
unfoldable pub same_group : GroupState → GroupState → Bool
unfolding same_bool same_names
same_group a b =
    a.group =s b.group
    && a.selected =s b.selected
    && same_names a.proxies b.proxies
    && same_bool a.probe_enabled b.probe_enabled
    && same_bool a.automation_enabled b.automation_enabled
    && same_bool a.manual_override b.manual_override
    && same_bool a.switch_in_flight b.switch_in_flight
    && a.last_switch_at == b.last_switch_at

unfoldable pub same_groups : List GroupState → List GroupState → Bool
unfolding same_group
same_groups [] [] = true
same_groups [] (b ∷ bs) = false
same_groups (a ∷ as') [] = false
same_groups (a ∷ as') (b ∷ bs) = same_group a b && same_groups as' bs

is_current : Option (List GroupState) → List GroupState → Bool
unfolding same_groups
is_current none gs = false
is_current (some old) gs = same_groups old gs

abbrev pub signal : Shared → Shared
signal s = record s { wake = true }

replace_groups : Shared → List GroupState → Option GroupError → Shared × Option GroupError
unfolding is_current
replace_groups s gs (some e) = (s, some e)
replace_groups s gs none =
    if is_current s.groups gs
    then (s, none)
    else (signal (record s { groups = some gs; generation = (s.generation + 1) % u64_mod }), none)

unfoldable pub set_groups : Shared → List GroupState → Shared × Option GroupError
unfolding replace_groups check_groups
set_groups s gs = replace_groups s gs (check_groups [] gs)

unfoldable pub find_group : String → List GroupState → Option GroupState
find_group name [] = none
find_group name (g ∷ gs) = if g.group =s name then some g else find_group name gs

abbrev pub add_name : String → List String → List String
add_name n ns = if contains n ns then ns else n ∷ ns

-- The result is whether the group is known; otherwise the source returns its error.
unfoldable pub request : Shared → String → Shared × Bool
request s group = elim (find_group group (list_of s.groups)) [
  | none ↦ (s, false)
  | some g ↦ (signal (record s { requests = add_name group s.requests }), true)
]

unfoldable pub probed_groups : List GroupState → List String
probed_groups [] = []
probed_groups (g ∷ gs) = if g.probe_enabled then g.group ∷ probed_groups gs else probed_groups gs

includes : List String → List String → Bool
includes xs [] = true
includes xs (y ∷ ys) = contains y xs && includes xs ys

-- `maps.Equal` of two sets of names.
unfoldable pub same_members : List String → List String → Bool
unfolding includes
same_members xs ys = includes xs ys && includes ys xs

unfoldable pub set_stream_members : Shared → List String → Shared
unfolding same_members
set_stream_members s names =
    if same_members s.members names then s else signal (record s { members = names })

unfoldable pub is_probed : Shared → String → Bool
is_probed s group = elim (find_group group (list_of s.groups)) [
  | none ↦ false
  | some g ↦ g.probe_enabled
]

unfoldable pub count_failure : Shared → String → Shared
count_failure s group = record s {
  dial_failures = put group (suc (get 0 group s.dial_failures)) s.dial_failures;
}

-- `now.Sub(last) < spacing`, which also holds where the last probe lies ahead.
unfoldable pub too_soon : Policy → Shared → String → ℕ → Bool
too_soon policy s group now =
    ltb (get 0 group s.dial_failures) policy.max_failures
    || ltb (now - get 0 group s.last_dial_probe) dial_failure_probe_spacing

unfoldable pub report_dial_failure : Policy → Shared → String → ℕ → Shared
unfolding count_failure too_soon
report_dial_failure policy s group now =
    let counted = count_failure s group in
    if not (is_probed s group)
    then s
    else if too_soon policy counted group now
    then counted
    else signal (record counted {
      last_dial_probe = put group now s.last_dial_probe;
      requests = add_name group s.requests;
    })
