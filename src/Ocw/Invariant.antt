-- ===== src/Ocw/Invariant.antt =====
-- The invariant of the ocw storage: the prices and the URLs are within their bounds, and every
-- processor has staked less than the configured minimum.
use my_polkadot_orcale.Prelude.{
  ℕ, ◌≡◌, ◌≤◌, ◌<◌, refl, Option, none, some, Bool-cases, Option-cases, inl, inr, length, ltb,
  ltb→lt, arith, lookup, contains_key, lookup-insert, lookup-remove, nat_eq, nat_beq, pair_eq,
  pair_beq, Bytes, [], leb, leb→le,
}
use my_polkadot_orcale.Model.{Origin, AccountId}
use my_polkadot_orcale.Ocw.Types.{Config, State, Meta}
use my_polkadot_orcale.Ocw.Prices.{
  add_data, submit_price, submit_price_unsigned, submit_price_unsigned_with_signed_payload,
  set_next,
}
use my_polkadot_orcale.Ocw.Staking.{
  stake, un_stake, slash, test_acc, submit_api_url, staked, new_meta,
}
use my_polkadot_orcale.Ocw.Unsigned.{Call}
use my_polkadot_orcale.Ocw.Feed.{add_data-Added}
use my_polkadot_orcale.Ocw.Chain.{dispatch}

module _ {L : Type 0} (c : Config L) where
  pub record IsSmall (m : Meta) : Type 0 where
    pub below_minimum : m.total_stake < c.min_stake_amount
    pub first_score : m.credit_score ≡ 80
    pub no_nominators : m.nominators ≡ []

  pub record IsValid (s : State L) : Type 0 where
    pub prices_fit : length s.prices ≤ c.max_prices
    pub urls_fit :
        (key : AccountId × ℕ) (url : Bytes)
        → lookup key s.api_url_store ≡ some url
        → length url ≤ 256
    pub stakes_small :
        (who : AccountId) (m : Meta) → lookup who s.staked_processors ≡ some m → IsSmall m

  -- The invariant looks at three maps.
  pub IsValid-same :
      (s t : State L)
      → t.prices ≡ s.prices
      → t.api_url_store ≡ s.api_url_store
      → t.staked_processors ≡ s.staked_processors
      → IsValid s
      → IsValid t
  IsValid-same s t p u k v = record {
    prices_fit = rw p v.prices_fit;
    urls_fit = rw u v.urls_fit;
    stakes_small = rw k v.stakes_small;
  }

  module _ (pos : 0 < c.max_prices) where
    add_data-IsValid :
        (who : Option AccountId) (p : ℕ) (s : State L) → IsValid s → IsValid (add_data c who p s).1
    add_data-IsValid who p s v =
        let (okay, a) = add_data-Added c who p s pos v.prices_fit in
        record {
          prices_fit = rw a.within (omega arith);
          urls_fit = rw a.same_urls v.urls_fit;
          stakes_small = rw a.same_processors v.stakes_small;
        }

    submit_price-IsValid :
        (o : Origin) (p : ℕ) (s : State L) → IsValid s → IsValid (submit_price c o p s).1
    unfolding submit_price
    submit_price-IsValid o p s v = elim (Option-cases (c.ensure_signed o)) [
      | inl e ↦ rw e v
      | inr (who, e) ↦ rw e (add_data-IsValid (some who) p s v)
    ]

    unsigned-IsValid :
        (o : Origin) (n p : ℕ) (s : State L)
        → IsValid s
        → IsValid (submit_price_unsigned c o n p s).1
    unfolding submit_price_unsigned
    unsigned-IsValid o n p s v = elim (Bool-cases (c.ensure_none o)) [
      | inl e ↦
          let t = (add_data c none p s).1 in
          let (okay, a) = add_data-Added c none p s pos v.prices_fit in
          rw (e, okay) (IsValid-same t (set_next c t) refl refl refl (add_data-IsValid none p s v))
      | inr e ↦ rw e v
    ]

  stake-IsValid :
      (o : Origin) (amount : ℕ) (s : State L) → IsValid s → IsValid (stake c o amount s).1
  unfolding stake
  stake-IsValid o amount s v = elim (Option-cases (c.ensure_signed o)) [
    | inl e ↦ rw e v
    | inr (who, e) ↦ elim (Bool-cases (contains_key who s.staked_processors)) [
      | inl f ↦ rw e (rw f v)
      | inr f ↦ elim (Bool-cases (ltb amount c.min_stake_amount)) [
        | inl g ↦ rw e (rw f (rw g (go who (ltb→lt _ _ g) (c.reserve s.ledger who amount))))
        | inr g ↦ rw e (rw f (rw g v))
      ]
    ]
  ]
    where
      go :
          (who : AccountId)
          → amount < c.min_stake_amount
          → (o : Option L) → IsValid (staked c who amount o s)
      go who small none = v
      go who small (some ledger) = record {
        prices_fit = v.prices_fit;
        urls_fit = v.urls_fit;
        stakes_small = λ a m there. elim (Bool-cases (nat_beq who a)) [
          | inl same ↦
              ground (arith, small, lookup-insert who a (new_meta c amount) s.staked_processors)
          | inr other ↦
              v.stakes_small a m
                (ground (arith, lookup-insert who a (new_meta c amount) s.staked_processors))
        ];
      }

  un_stake-IsValid : (o : Origin) (s : State L) → IsValid s → IsValid (un_stake c o s).1
  unfolding un_stake
  un_stake-IsValid o s v = elim (Option-cases (c.ensure_signed o)) [
    | inl e ↦ rw e v
    | inr (who, e) ↦ elim (Option-cases (lookup who s.staked_processors)) [
      | inl f ↦ rw e (rw f v)
      | inr (old, f) ↦ rw e (
          rw f (record {
            prices_fit = v.prices_fit;
            urls_fit = v.urls_fit;
            stakes_small = λ a m there.
                v.stakes_small a m (ground (arith, lookup-remove who a s.staked_processors, there));
          }))
    ]
  ]

  slash-IsValid :
      (o : Origin) (target : AccountId) (amount : ℕ) (s : State L)
      → IsValid s
      → IsValid (slash c o target amount s).1
  unfolding slash
  slash-IsValid o target amount s v = elim (Option-cases (c.ensure_signed o)) [
    | inl e ↦ rw e v
    | inr (who, e) ↦ elim (Bool-cases (ltb (c.reserved_balance s.ledger who) amount)) [
      | inl f ↦ elim (Bool-cases (contains_key who s.staked_processors)) [
        | inl g ↦ rw e (rw f (rw g v))
        | inr g ↦ rw e (rw f (rw g (IsValid-same s _ refl refl refl v)))
      ]
      | inr f ↦ rw e (rw f v)
    ]
  ]

  test_acc-IsValid : (o : Origin) (s : State L) → IsValid s → IsValid (test_acc c o s).1
  unfolding test_acc
  test_acc-IsValid o s v = elim (Option-cases (c.ensure_signed o)) [
    | inl e ↦ rw e v
    | inr (who, e) ↦ rw e (IsValid-same s _ refl refl refl v)
  ]

  submit_api_url-IsValid :
      (o : Origin) (topic : ℕ) (url : Bytes) (s : State L)
      → IsValid s
      → IsValid (submit_api_url c o topic url s).1
  unfolding submit_api_url
  submit_api_url-IsValid o topic url s v = elim (Option-cases (c.ensure_signed_or_root o)) [
    | inl e ↦ rw e v
    | inr (none, e) ↦ rw e v
    | inr (some who, e) ↦ elim (Bool-cases (leb (length url) 256)) [
      | inl f ↦ rw e (
          rw (c.try_from_lem 256 url) (
            rw f (record {
              prices_fit = v.prices_fit;
              urls_fit = λ key u there. elim (Bool-cases (pair_beq (who, topic) key)) [
                | inl same ↦
                    ground (arith, leb→le _ _ f, lookup-insert (who, topic) key url s.api_url_store)
                | inr other ↦
                    v.urls_fit key u
                      (ground (arith, lookup-insert (who, topic) key url s.api_url_store))
              ];
              stakes_small = v.stakes_small;
            })))
      | inr f ↦ rw e (rw (c.try_from_lem 256 url) (rw f v))
    ]
  ]

  pub dispatch-IsValid :
      0 < c.max_prices
      → (call : Call) (o : Origin) (s : State L) → IsValid s
      → IsValid (dispatch c call o s).1
  unfolding dispatch submit_price_unsigned_with_signed_payload
  dispatch-IsValid pos (Call.stake amount) o s v = stake-IsValid o amount s v
  dispatch-IsValid pos Call.un_stake o s v = un_stake-IsValid o s v
  dispatch-IsValid pos (Call.slash target amount) o s v = slash-IsValid o target amount s v
  dispatch-IsValid pos Call.test_acc o s v = test_acc-IsValid o s v
  dispatch-IsValid pos (Call.submit_price p) o s v = submit_price-IsValid pos o p s v
  dispatch-IsValid pos (Call.submit_price_unsigned n p) o s v = unsigned-IsValid pos o n p s v
  dispatch-IsValid pos (Call.submit_price_unsigned_with_signed_payload pay sig) o s v =
      unfold submit_price_unsigned in unsigned-IsValid pos o pay.block_number pay.price s v
  dispatch-IsValid pos (Call.submit_api_url topic url) o s v =
      submit_api_url-IsValid o topic url s v
