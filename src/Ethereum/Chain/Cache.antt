-- ===== src/Ethereum/Chain/Cache.antt =====
-- The block cache gives what the ledger gives.
use decentralised_interledge.Prelude.{
  ℕ, Bool, true, false, some, [], Result, ok, err, ◌≡◌, refl, inl, inr, arith, Option-cases, ◌==◌,
  ==_iff, Bool-cases, if◌then◌else◌, sym, ◌∙◌,
}
use mathlib.Core.Option.{some-injective}
use decentralised_interledge.Prelude.Dict.{lookup, insert, lookup-insert}
use decentralised_interledge.Ethereum.Chain.{Block, Fetch, Cache, cache_key, keep, get_block}

-- Every block in the cache is the one that the ledger gives for its key.
abbrev pub IsFaithful : Fetch → Cache → Type 0
IsFaithful fetch cache =
    (n : ℕ) (full : Bool) (b : Block)
    → lookup (cache_key n full) cache ≡ some b
    → fetch n full ≡ ok b

pub IsFaithful-empty : (fetch : Fetch) → IsFaithful fetch []
IsFaithful-empty fetch n full b e = cc

cache_key-inj : (m n : ℕ) (g full : Bool) → cache_key m g ≡ cache_key n full → (m ≡ n) × (g ≡ full)
cache_key-inj m n true true h = (omega arith, refl)
cache_key-inj m n true false h = absurd (omega arith)
cache_key-inj m n false true h = absurd (omega arith)
cache_key-inj m n false false h = (omega arith, refl)

insert-IsFaithful :
    (fetch : Fetch) (cache : Cache) (n : ℕ) (full : Bool) (b : Block)
    → IsFaithful fetch cache
    → fetch n full ≡ ok b
    → IsFaithful fetch (insert (cache_key n full) b cache)
insert-IsFaithful fetch cache n full b h e m g c l =
    elim (Bool-cases (cache_key n full == cache_key m g)) [
      | inl hit ↦
          let (nm, fg) = cache_key-inj n m full g ((==_iff _ _).0 hit) in
          let bc : b ≡ c = some-injective b c (sym (read hit) ∙ l) in cc e
      | inr miss ↦ h m g c (sym (read miss) ∙ l)
    ]
  where
    read :
        {x : Bool}
        → (cache_key n full == cache_key m g) ≡ x
        → lookup (cache_key m g) (insert (cache_key n full) b cache)
          ≡ (if x then some b else lookup (cache_key m g) cache)
    read q = rw (lookup-insert (cache_key m g) (cache_key n full) b cache, q) refl

-- Through a faithful cache a block is read as from the ledger, errors included, and the cache
-- stays faithful.
pub get_block-eq-fetch :
    (fetch : Fetch) (n : ℕ) (full : Bool) (cache : Cache)
    → IsFaithful fetch cache
    → ((get_block fetch n full cache).0 ≡ fetch n full)
      × IsFaithful fetch (get_block fetch n full cache).1
unfolding get_block
get_block-eq-fetch fetch n full cache h = elim (Option-cases (lookup (cache_key n full) cache)) [
  | inl miss ↦ rw (miss, get_block) (kept (fetch n full) refl)
  | inr (b, hit) ↦ rw (hit, get_block) (sym (h n full b hit), h)
]
  where
    kept :
        (r : Result Block)
        → fetch n full ≡ r
        → ((keep (cache_key n full) r cache).0 ≡ r)
          × IsFaithful fetch (keep (cache_key n full) r cache).1
    kept (ok b) e = (refl, insert-IsFaithful fetch cache n full b h e)
    kept (err x) e = (refl, h)
