-- ===== src/Ocw/Feed.antt =====
-- The list of prices stays within its bound, and adding a price never panics.
use mathlib.Core.Option.{none-ne-some}
use my_polkadot_orcale.Prelude.{
  ℕ, ◌+◌, ◌%◌, ◌≤◌, ◌<◌, ◌≡◌, ◌≢◌, refl, sym, ◌∙◌, Option, none, some, List, [], ◌∷◌, ◌++◌, length,
  length-append, length-set, set, arith, ok, Bool-cases, inl, inr, ltb, ltb→lt, min, if◌then◌else◌,
}
use my_polkadot_orcale.Model.{AccountId}
use my_polkadot_orcale.Ocw.Types.{Config, State, new_price}
use my_polkadot_orcale.Ocw.Prices.{average_price, push_price, add_data}

module _ {L : Type 0} (c : Config L) where
  -- The list after a price: longer by one, or, once it is full, of the same length with the price
  -- at the place that it names.
  pub push_price_lem :
      (p : ℕ) (ps : List ℕ)
      → 0 < c.max_prices
      → length ps ≤ c.max_prices
      → (length ps < c.max_prices → push_price c p ps ≡ some (ps ++ p ∷ []))
        × (length ps ≡ c.max_prices → push_price c p ps ≡ some (set ps (p % c.max_prices) p))
  unfolding push_price
  push_price_lem p ps pos fits = (
    (λ h. ground (arith, c.try_push_lem c.max_prices ps p)),
    λ h. grind (arith, c.try_push_lem c.max_prices ps p),
  )

  -- What adding a price leaves behind: the list within its bound, an average, an event, and
  -- everything else as it was.
  pub record Added (who : Option AccountId) (p : ℕ) (s s' : State L) : Type 0 where
    pub prices : s'.prices ≡ (
        if ltb (length s.prices) c.max_prices
        then s.prices ++ p ∷ []
        else set s.prices (p % c.max_prices) p)
    pub within : length s'.prices ≡ min (length s.prices + 1) c.max_prices
    pub has_average : average_price s'.prices ≢ none
    pub event : s'.events ≡ s.events ++ new_price p who ∷ []
    pub same_next : s'.next_unsigned_at ≡ s.next_unsigned_at
    pub same_ledger : s'.ledger ≡ s.ledger
    pub same_block : s'.block_number ≡ s.block_number
    pub same_urls : s'.api_url_store ≡ s.api_url_store
    pub same_hashes : s'.hash_store ≡ s.hash_store
    pub same_processors : s'.staked_processors ≡ s.staked_processors

  some_average : (ps : List ℕ) → 0 < length ps → (a : ℕ) × (average_price ps ≡ some a)
  unfolding average_price
  some_average [] h = absurd (omega arith)
  some_average (p ∷ ps) h = (_, refl)

  added :
      (who : Option AccountId) (p : ℕ) (s : State L) (ps : List ℕ)
      → push_price c p s.prices ≡ some ps
      → 0 < length ps
      → add_data c who p s
        ≡ (ok tt, record s { prices = ps; events = s.events ++ new_price p who ∷ [] })
  unfolding add_data
  added who p s ps e pos = let (a, ea) = some_average ps pos in ground (arith, ea)

  pushed-Added :
      (who : Option AccountId) (p : ℕ) (s : State L) (ps : List ℕ)
      → push_price c p s.prices ≡ some ps
      → ps ≡ (
          if ltb (length s.prices) c.max_prices
          then s.prices ++ p ∷ []
          else set s.prices (p % c.max_prices) p)
      → length ps ≡ min (length s.prices + 1) c.max_prices
      → 0 < length ps
      → ((add_data c who p s).0 ≡ ok tt) × Added who p s (add_data c who p s).1
  pushed-Added who p s ps pushed is fits pos =
      let (a, ea) = some_average ps pos in
      rw (added who p s ps pushed pos) (
        refl,
        record {
          prices = is;
          within = fits;
          has_average = λ e. none-ne-some a (sym e ∙ ea);
          event = refl;
          same_next = refl;
          same_ledger = refl;
          same_block = refl;
          same_urls = refl;
          same_hashes = refl;
          same_processors = refl;
        },
      )

  -- With room for at least one price and a list within its bound, adding a price succeeds: it does
  -- not panic, whatever the price.
  pub add_data-Added :
      (who : Option AccountId) (p : ℕ) (s : State L)
      → 0 < c.max_prices
      → length s.prices ≤ c.max_prices
      → ((add_data c who p s).0 ≡ ok tt) × Added who p s (add_data c who p s).1
  add_data-Added who p s pos fits =
      let law = push_price_lem p s.prices pos fits in
      elim (Bool-cases (ltb (length s.prices) c.max_prices)) [
        | inl room ↦
            let longer = length-append s.prices (p ∷ []) in
            pushed-Added who p s (s.prices ++ p ∷ []) (law.0 (ltb→lt _ _ room)) (rw room refl)
              (ground arith) (omega arith)
        | inr full ↦
            let same = length-set s.prices (p % c.max_prices) p in
            pushed-Added who p s (set s.prices (p % c.max_prices) p) (law.1 (ground arith))
              (rw full refl) (ground arith) (ground arith)
      ]
