-- ===== src/Block.antt =====
-- core/kv_block.py: the metadata of one KV block and the checks of its constructor.
pub mod Checks
use solid_attention.Base.{
  ℕ, ◌+◌, ◌-◌, String, str_eq, Bool, true, false, not, ◌&&◌, Option, none, some, List, map, Result,
  ok, err, value_error, ◌>>=◌, ◌>>◌, raise_if, if◌then◌else◌, ltb, leb, ℕ_discrete,
}
use mathlib.Core.Path.{ap, ap₂}
use solid_attention.Base.Int.{ℤ, pos, pos_part, ltb_ℤ, leb_ℤ, eqb_ℤ}

pub data BlockLocation : Type 0 where
  ssd dram vram : BlockLocation

pub data BlockRole : Type 0 where
  init local selected current prefetch : BlockRole

-- `location.value`
unfoldable pub location_value : BlockLocation → String
location_value ssd = "ssd"
location_value dram = "dram"
location_value vram = "vram"

-- `BlockLocation(text)`
unfoldable pub block_location : String → Result BlockLocation
block_location s =
    if str_eq s "ssd"
    then ok ssd
    else if str_eq s "dram"
    then ok dram
    else if str_eq s "vram"
    then ok vram
    else err (value_error "not a valid BlockLocation")

unfoldable pub role_value : BlockRole → String
role_value init = "init"
role_value local = "local"
role_value selected = "selected"
role_value current = "current"
role_value prefetch = "prefetch"

-- `BlockRole(text)`
unfoldable pub block_role : String → Result BlockRole
block_role s =
    if str_eq s "init"
    then ok init
    else if str_eq s "local"
    then ok local
    else if str_eq s "selected"
    then ok selected
    else if str_eq s "current"
    then ok current
    else if str_eq s "prefetch"
    then ok prefetch
    else err (value_error "not a valid BlockRole")

-- `a == b` of two locations.
abbrev pub same_location : BlockLocation → BlockLocation → Bool
same_location ssd ssd = true
same_location dram dram = true
same_location vram vram = true
same_location _ _ = false

-- A value of a metadata dictionary.
pub data Value (Fl : Type 0) : Type 0 where
  null : Value Fl
  flag : Bool → Value Fl
  int : ℤ → Value Fl
  num : Fl → Value Fl
  text : String → Value Fl

abbrev pub Metadata : Type 0 → Type 0
Metadata Fl = List (String × Value Fl)

pub record BlockInterval : Type 0 where
  pub start_token : ℕ
  pub end_token : ℕ

-- `BlockInterval(start, end)`
unfoldable pub block_interval : ℤ → ℤ → Result BlockInterval
block_interval start end = do
  raise_if (ltb_ℤ start (pos 0)) (value_error "start_token must be non-negative")
  raise_if (leb_ℤ end start) (value_error "end_token must be greater than start_token")
  ok (record { start_token = pos_part start; end_token = pos_part end })

abbrev pub interval_token_count : BlockInterval → ℕ
interval_token_count i = i.end_token - i.start_token

unfoldable pub interval_contains : BlockInterval → ℤ → Bool
interval_contains i token_id =
    leb_ℤ (pos i.start_token) token_id && ltb_ℤ token_id (pos i.end_token)

pub record KvBlock (Fl : Type 0) : Type 0 where
  pub block_id : ℕ
  pub layer_id : ℕ
  pub start_token : ℕ
  pub end_token : ℕ
  pub size_bytes : ℕ
  pub location : BlockLocation
  pub role : BlockRole
  pub representative : Option (List Fl)
  pub metadata : Metadata Fl
  pub interval : BlockInterval

-- The arguments of the constructor, before any check.
pub record BlockArgs (Fl : Type 0) : Type 0 where
  pub block_id : ℤ
  pub layer_id : ℤ
  pub start_token : Option ℤ
  pub end_token : Option ℤ
  pub size_bytes : ℤ
  pub location : String
  pub role : String
  pub representative : Option (List Fl)
  pub metadata : Metadata Fl
  pub interval : Option BlockInterval

-- `token is not None and token != bound`
unfoldable pub conflicts : Option ℤ → ℕ → Bool
conflicts none bound = false
conflicts (some token) bound = not (eqb_ℤ token (pos bound))

-- The first part of `__post_init__`: the interval, given or built from the two tokens.
unfoldable pub resolve_interval : Option ℤ → Option ℤ → Option BlockInterval → Result BlockInterval
unfolding conflicts
resolve_interval start end (some i) = do
  raise_if (conflicts start i.start_token) (value_error "start_token conflicts with interval")
  raise_if (conflicts end i.end_token) (value_error "end_token conflicts with interval")
  ok i
resolve_interval (some start) (some end) none = block_interval start end
resolve_interval _ _ none = err (value_error "start_token and end_token are required")

abbrev pub BlockKey : Type 0
BlockKey = ℕ × ℕ

unfoldable pub key_discrete : Discrete BlockKey
key_discrete (a, b) (c, d) = elim (ℕ_discrete a c) [
  | yes p ↦ elim (ℕ_discrete b d) [
    | yes q ↦ yes (ap₂ (λ x y. (x, y)) p q)
    | no n ↦ no (λ e. n (ap (λ x. x.1) e))
  ]
  | no n ↦ no (λ e. n (ap (λ x. x.0) e))
]

module _ {Fl : Type 0} where
  -- `KVBlock(...)`
  unfoldable pub kv_block : BlockArgs Fl → Result (KvBlock Fl)
  kv_block args = do
    i ← resolve_interval args.start_token args.end_token args.interval
    raise_if (ltb_ℤ args.block_id (pos 0)) (value_error "block_id must be non-negative")
    raise_if (ltb_ℤ args.layer_id (pos 0)) (value_error "layer_id must be non-negative")
    raise_if (ltb_ℤ args.size_bytes (pos 0)) (value_error "size_bytes must be non-negative")
    location ← block_location args.location
    role ← block_role args.role
    ok (record {
      block_id = pos_part args.block_id;
      layer_id = pos_part args.layer_id;
      start_token = i.start_token;
      end_token = i.end_token;
      size_bytes = pos_part args.size_bytes;
      location = location;
      role = role;
      representative = args.representative;
      metadata = args.metadata;
      interval = i;
    })

  abbrev pub token_count : KvBlock Fl → ℕ
  token_count b = interval_token_count b.interval

  abbrev pub key : KvBlock Fl → BlockKey
  key b = (b.layer_id, b.block_id)

  unfoldable pub contains_token : KvBlock Fl → ℤ → Bool
  contains_token b token_id = interval_contains b.interval token_id

  unfoldable pub is_resident : KvBlock Fl → BlockLocation → Bool
  is_resident b location = same_location b.location location

  abbrev pub move_to : BlockLocation → KvBlock Fl → KvBlock Fl
  move_to location b = record b { location = location }

  abbrev pub mark_role : BlockRole → KvBlock Fl → KvBlock Fl
  mark_role role b = record b { role = role }

  abbrev pub set_representative : List Fl → KvBlock Fl → KvBlock Fl
  set_representative vector b = record b { representative = some vector }
