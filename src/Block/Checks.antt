-- ===== src/Block/Checks.antt =====
-- core/kv_block.py: what the constructors accept, and what they build.
use solid_attention.Base.{
  ℕ, ◌<◌, ◌≡◌, refl, ◌⊎◌, ◌↔◌, inl, inr, Option, none, some, ok, arith, >>=-eq-ok, Result-cases,
}
use solid_attention.Base.Int.{ℤ, pos}
use solid_attention.Block.{
  BlockLocation, BlockRole, location_value, block_location, role_value, block_role, BlockInterval,
  block_interval, KvBlock, BlockArgs, resolve_interval, kv_block,
}

pub location_roundtrip : (l : BlockLocation) → block_location (location_value l) ≡ ok l
unfolding block_location location_value
location_roundtrip BlockLocation.ssd = refl
location_roundtrip _ = refl

pub role_roundtrip : (r : BlockRole) → block_role (role_value r) ≡ ok r
unfolding block_role role_value
role_roundtrip BlockRole.init = refl
role_roundtrip _ = refl

-- The interval covers at least one token.
pub record IsInterval (i : BlockInterval) : Type 0 where
  pub nonempty : i.start_token < i.end_token

block_interval-ok :
    (s e : ℤ) (i : BlockInterval)
    → block_interval s e ≡ ok i
    → IsInterval i × (s ≡ pos i.start_token) × (e ≡ pos i.end_token)
unfolding block_interval
block_interval-ok s e i h = ground arith

-- What the caller may pass for a token beside an interval: nothing, or the interval's own.
abbrev pub Agrees : Option ℤ → ℕ → Type 0
Agrees token bound = (token ≡ none) ⊎ (token ≡ some (pos bound))

-- The two ways to give the interval of a block.
abbrev pub GivesInterval : {Fl : Type 0} → BlockArgs Fl → BlockInterval → Type 0
GivesInterval args i =
    ((args.interval ≡ some i)
      × Agrees args.start_token i.start_token
      × Agrees args.end_token i.end_token)
    ⊎ ((args.interval ≡ none)
        × (args.start_token ≡ some (pos i.start_token))
        × (args.end_token ≡ some (pos i.end_token)))

-- The block's tokens are those of its interval, which is not empty.
pub record IsWellFormed {Fl : Type 0} (b : KvBlock Fl) : Type 0 where
  pub start_agrees : b.start_token ≡ b.interval.start_token
  pub end_agrees : b.end_token ≡ b.interval.end_token
  pub nonempty : b.interval.start_token < b.interval.end_token

-- The arguments describe the block.
pub record Describes {Fl : Type 0} (args : BlockArgs Fl) (b : KvBlock Fl) : Type 0 where
  pub interval : GivesInterval args b.interval
  pub block_id : args.block_id ≡ pos b.block_id
  pub layer_id : args.layer_id ≡ pos b.layer_id
  pub size_bytes : args.size_bytes ≡ pos b.size_bytes
  pub location : block_location args.location ≡ ok b.location
  pub role : block_role args.role ≡ ok b.role
  pub representative : args.representative ≡ b.representative
  pub metadata : args.metadata ≡ b.metadata

module _ {Fl : Type 0} (args : BlockArgs Fl) (b : KvBlock Fl) where
  resolve-gives :
      (i : BlockInterval)
      → ((j : BlockInterval) → args.interval ≡ some j → IsInterval j)
      → resolve_interval args.start_token args.end_token args.interval ≡ ok i
      → IsInterval i × GivesInterval args i
  unfolding resolve_interval block_interval
  resolve-gives i given h = grind (arith, given)

  gives-resolve :
      (i : BlockInterval)
      → IsInterval i
      → GivesInterval args i
      → resolve_interval args.start_token args.end_token args.interval ≡ ok i
  unfolding resolve_interval block_interval
  gives-resolve i v g = ground arith

  built :
      ((j : BlockInterval) → args.interval ≡ some j → IsInterval j)
      → kv_block args ≡ ok b
      → IsWellFormed b × Describes args b
  unfolding kv_block
  built given h =
      let (i, resolved, h') =
        >>=-eq-ok (resolve_interval args.start_token args.end_token args.interval) _ h in
      let (valid, gives) = resolve-gives i given resolved in
      elim (Result-cases (block_location args.location)) [
        | inl (l, known) ↦ elim (Result-cases (block_role args.role)) [
          | inl (r, role_known) ↦ ground arith
          | inr (e, unknown) ↦ absurd (ground arith)
        ]
        | inr (e, unknown) ↦ absurd (ground arith)
      ]

  builds : IsWellFormed b × Describes args b → kv_block args ≡ ok b
  unfolding kv_block
  builds (w, d) =
      let r = gives-resolve b.interval (record { nonempty = w.nonempty }) d.interval in
      rw (r, d.location, d.role) (ground arith)

  -- When an interval that is passed is not empty, the constructor returns a block exactly when its
  -- arguments describe it and it is well formed.
  pub kv_block_iff :
      ((j : BlockInterval) → args.interval ≡ some j → IsInterval j)
      → (kv_block args ≡ ok b) ↔ (IsWellFormed b × Describes args b)
  kv_block_iff given = (built given, builds)
