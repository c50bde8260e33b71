-- ===== src/Subscriptions/Model.antt =====
-- subscriptions/store.go and subscriptions/model.go: the configuration of a subscription (its struct
-- is in config/types.go) and its checks. Durations are nanoseconds; a negative one is `negsuc`.
pub mod Identifier
pub mod Normal
use clashpulse.Base.{
  ℕ, zero, suc, ◌+◌, ◌*◌, ◌≡◌, String, Bool, true, false, not, ◌&&◌, ◌||◌, List, [], ◌∷◌, Option,
  none, some, if◌then◌else◌, ltb, leb, ◌==◌, ◌=s◌, is_blank, codes, contains, length, trim_space,
  join, starts_with, has_part,
}
use clashpulse.Monitor.Model.{second}
use clashpulse.Monitor.Policy.{ℤ, pos, negsuc, Url}

pub record Subscription : Type 0 where
  pub id : String
  pub name : String
  pub url : String
  pub user_agent : String
  pub enabled : Bool
  pub refresh_interval : ℤ
  pub timeout : ℤ
  pub route : String
  pub allow_http : Bool
  pub allow_invalid_tls : Bool

-- The errors of the package.
pub data StoreError : Type 0 where
  invalid active not_found already_exists no_snapshot store_failed cleanup_pending : StoreError

pub data Result {ℓ} (A : Type ℓ) : Type ℓ where
  ok : A → Result A
  err : StoreError → Result A

infixl 5 ◌>>=◌
abbrev pub ◌>>=◌ {ℓ κ} : {A : Type ℓ} {B : Type κ} → Result A → (A → Result B) → Result B
ok a >>= f = f a
err e >>= f = err e

abbrev is_between : ℕ → ℕ → ℕ → Bool
is_between low high b = leb low b && leb b high

unfoldable is_alpha_numeric : ℕ → Bool
is_alpha_numeric b = is_between 97 122 b || is_between 65 90 b || is_between 48 57 b

-- The loop over the bytes behind the first. A character of several bytes has only bytes that are
-- refused, as is its code here.
unfoldable valid_id_rest : List ℕ → Bool
unfolding is_alpha_numeric
valid_id_rest [] = true
valid_id_rest (b ∷ bs) =
    if not (is_alpha_numeric b) && not (b == 46) && not (b == 95) && not (b == 45)
    then false
    else valid_id_rest bs

unfoldable valid_id_bytes : List ℕ → Bool
unfolding valid_id_rest
valid_id_bytes [] = false
valid_id_bytes (b ∷ bs) =
    if ltb 128 (length (b ∷ bs)) || not (is_alpha_numeric b) then false else valid_id_rest bs

unfoldable pub valid_id : String → Bool
unfolding valid_id_bytes
valid_id id = valid_id_bytes (codes id)

unfoldable pub all_hex : List ℕ → Bool
all_hex [] = true
all_hex (b ∷ bs) = (is_between 48 57 b || is_between 65 70 b || is_between 97 102 b) && all_hex bs

-- `validOptionalHash`: none, or the 64 hexadecimal digits of a SHA-256 digest.
unfoldable pub valid_optional_hash : String → Bool
unfolding all_hex
valid_optional_hash value =
    if is_blank value
    then true
    else if not (length (codes value) == 64)
    then false
    else all_hex (codes value)

-- download/client.go: `Routes` and `ValidRoute`.
abbrev routes : List String
routes = "auto" ∷ "direct" ∷ "system_proxy" ∷ "mihomo_proxy" ∷ []

unfoldable pub valid_route : String → Bool
valid_route name = contains name routes

printable : List ℕ → Bool
printable [] = true
printable (c ∷ cs) = if ltb c 32 || ltb 126 c then false else printable cs

-- The size of a text in bytes, of which the limit speaks, is its length once every character is one
-- byte; a text with any other is refused in any case.
unfoldable pub valid_user_agent : String → Bool
unfolding printable
valid_user_agent value = if ltb 256 (length (codes value)) then false else printable (codes value)

-- The bytes that UTF-8 takes for a code point.
utf8_size : ℕ → ℕ
utf8_size c = if ltb c 128 then 1 else if ltb c 2048 then 2 else if ltb c 65536 then 3 else 4

unfoldable pub byte_size : List ℕ → ℕ
unfolding utf8_size
byte_size [] = 0
byte_size (c ∷ cs) = utf8_size c + byte_size cs

with_scheme : String → String
with_scheme raw =
    if starts_with (codes "//") (codes raw)
    then join "https:" raw
    else if not (has_part (codes "://") (codes raw))
    then join "https://" raw
    else raw

target_ok : Bool → Option Url → Bool
target_ok allow_http none = false
target_ok allow_http (some u) =
    if u.has_user || is_blank u.host || not (is_blank u.opaque)
    then false
    else if u.scheme =s "https"
    then true
    else allow_http && u.scheme =s "http"

-- `validURL`; `parse` is `url.Parse`.
unfoldable pub valid_url : (String → Option Url) → String → Bool → Bool
unfolding with_scheme target_ok
valid_url parse raw allow_http =
    if is_blank raw then false else target_ok allow_http (parse (with_scheme raw))

-- The zero duration stands for the default.
unfoldable pub or_default : ℕ → ℤ → ℤ
or_default d (pos zero) = pos d
or_default d z = z

unfoldable pub is_below_zero : ℤ → Bool
is_below_zero (pos n) = false
is_below_zero (negsuc n) = true

unfoldable pub check_url : (String → Option Url) → Subscription → Result Subscription
check_url parse s =
    let trimmed = record s { url = trim_space s.url } in
    if not (valid_url parse trimmed.url trimmed.allow_http)
    then err invalid
    else if not (valid_user_agent trimmed.user_agent)
    then err invalid
    else ok trimmed

unfoldable pub check_route : (String → Option Url) → Subscription → Result Subscription
unfolding check_url
check_route parse s =
    let routed = record s { route = if is_blank s.route then "auto" else s.route } in
    if not (valid_route routed.route) then err invalid else check_url parse routed

unfoldable pub check_times : (String → Option Url) → Subscription → Result Subscription
unfolding or_default is_below_zero check_route
check_times parse s =
    let timed = record s {
      refresh_interval = or_default (12 * 3600 * second) s.refresh_interval;
      timeout = or_default (30 * second) s.timeout;
    } in
    if is_below_zero timed.refresh_interval || is_below_zero timed.timeout
    then err invalid
    else check_route parse timed

unfoldable pub check_name : (String → Option Url) → Subscription → Result Subscription
unfolding byte_size check_times
check_name parse s =
    let trimmed = trim_space s.name in
    let named = record s { name = if is_blank trimmed then s.id else trimmed } in
    if ltb 256 (byte_size (codes named.name)) then err invalid else check_times parse named

unfoldable with_fresh_id : Subscription → Result String → Result Subscription
with_fresh_id s fresh = fresh >>= λ id. ok (record s { id = id })

unfoldable pub with_id : Option (Result String) → Subscription → Result Subscription
unfolding with_fresh_id
with_id none s = ok s
with_id (some fresh) s = if is_blank s.id then with_fresh_id s fresh else ok s

unfoldable pub check_id : (String → Option Url) → Subscription → Result Subscription
unfolding check_name
check_id parse s = if not (valid_id s.id) then err invalid else check_name parse s

-- `normalizeSubscription`; the second argument is what `newID` returns, where an identifier is to be
-- made for a subscription that has none.
unfoldable pub normalize_subscription :
    (String → Option Url) → Option (Result String) → Subscription → Result Subscription
unfolding with_id check_id
normalize_subscription parse new_id s =
    with_id new_id (record s { id = trim_space s.id }) >>= check_id parse

unfoldable pub same_integer : ℤ → ℤ → Bool
same_integer (pos a) (pos b) = a == b
same_integer (negsuc a) (negsuc b) = a == b
same_integer _ _ = false

unfoldable pub same_flag : Bool → Bool → Bool
same_flag true b = b
same_flag false b = not b

-- `==` of two subscriptions.
unfoldable pub same_subscription : Subscription → Subscription → Bool
unfolding same_integer same_flag
same_subscription a b =
    a.id =s b.id
    && a.name =s b.name
    && a.url =s b.url
    && a.user_agent =s b.user_agent
    && same_flag a.enabled b.enabled
    && same_integer a.refresh_interval b.refresh_interval
    && same_integer a.timeout b.timeout
    && a.route =s b.route
    && same_flag a.allow_http b.allow_http
    && same_flag a.allow_invalid_tls b.allow_invalid_tls

unfoldable pub is_same_result : Subscription → Result Subscription → Bool
is_same_result s (err e) = false
is_same_result s (ok t) = same_subscription t s

-- The test of `NewStore`: the subscription is its own normal form.
unfoldable pub is_normal : (String → Option Url) → Subscription → Bool
unfolding is_same_result
is_normal parse s = is_same_result s (normalize_subscription parse none s)
