-- ===== src/Redis/Keys/Distinct.antt =====
-- A key names its prefix, environment, purpose, tenant, user and last part, each without spaces at
-- its ends: where these differ, so do the keys.
use enterprise_support_agent.Base.{
  true, List, [], ◌∷◌, ◌++◌, ◌≡◌, ◌≢◌, refl, sym, ◌∙◌, arith, ok, ◌>>=◌, not, ◌==◌, all, All,
  >>=-eq-ok, ok-injective,
}
use enterprise_support_agent.Base.Text.{Text, lit, strip}
use enterprise_support_agent.Redis.Keys.{
  is_segment_char, is_segment, validated_segment, RedisKeyBuilder, redis_key_builder, join,
  order_cache, chat_rate_limit, refund_idempotency,
}

-- Without a colon.
abbrev IsPlain : Text → Type 0
IsPlain s = all (λ c. not (c == 58)) s ≡ true

chars-IsPlain : (s : Text) → all is_segment_char s ≡ true → IsPlain s
chars-IsPlain [] h = refl
chars-IsPlain (c ∷ s) h = ground (arith, chars-IsPlain s)

segment-IsPlain : (s : Text) → is_segment s ≡ true → IsPlain s
unfolding is_segment
segment-IsPlain [] h = cc
segment-IsPlain (c ∷ s) h = ground (arith, chars-IsPlain s)

-- What stands before the first colon, and what behind it.
split_unique :
    (s t u v : Text) → IsPlain s → IsPlain t → s ++ 58 ∷ u ≡ t ++ 58 ∷ v → (s ≡ t) × (u ≡ v)
split_unique [] [] u v hs ht e = ground arith
split_unique [] (d ∷ t) u v hs ht e = ground arith
split_unique (c ∷ s) [] u v hs ht e = ground arith
split_unique (c ∷ s) (d ∷ t) u v hs ht e = ground (arith, split_unique s t u v)

no_split : (s t v : Text) → IsPlain s → s ≢ t ++ 58 ∷ v
no_split [] [] v hs e = cc
no_split [] (d ∷ t) v hs e = cc
no_split (c ∷ s) [] v hs e = ground arith
no_split (c ∷ s) (d ∷ t) v hs e = ground (arith, no_split s t v)

-- Lists of segments with the same join are the same.
join-injective :
    (s t : Text) (ss ts : List Text)
    → All IsPlain (s ∷ ss)
    → All IsPlain (t ∷ ts)
    → join (s ∷ ss) ≡ join (t ∷ ts)
    → s ∷ ss ≡ t ∷ ts
unfolding join
join-injective s t [] [] hs ht e = cc
join-injective s t [] (t' ∷ ts) hs ht e = absurd (no_split s t (join (t' ∷ ts)) hs.0 e)
join-injective s t (s' ∷ ss) [] hs ht e = absurd (no_split t s (join (s' ∷ ss)) ht.0 (sym e))
join-injective s t (s' ∷ ss) (t' ∷ ts) hs ht e =
    let (first, rest) = split_unique s t (join (s' ∷ ss)) (join (t' ∷ ts)) hs.0 ht.0 e in
    cc (first, join-injective s' t' ss ts hs.1 ht.1 rest)

validated_segment-ok :
    (value s : Text) → validated_segment value ≡ ok s → (s ≡ strip value) × IsPlain s
unfolding validated_segment
validated_segment-ok value s h = ground (arith, segment-IsPlain (strip value))

abbrev IsBuilder : RedisKeyBuilder → Type 0
IsBuilder b = IsPlain b.prefix × IsPlain b.environment

redis_key_builder-IsPlain :
    (p e : Text) (b : RedisKeyBuilder) → redis_key_builder p e ≡ ok b → IsBuilder b
unfolding redis_key_builder
redis_key_builder-IsPlain p e b h =
    let (p', hp, r) = >>=-eq-ok (validated_segment p) _ h in
    let (e', he, last) = >>=-eq-ok (validated_segment e) _ r in
    rw (← ok-injective _ b last)
      ((validated_segment-ok p p' hp).1, (validated_segment-ok e e' he).1)

-- The key is the join of the segments, and none has a colon in it.
abbrev IsKeyOf : Text → List Text → Type 0
IsKeyOf key segments = (key ≡ join segments) × All IsPlain segments

module _ (b : RedisKeyBuilder) (valid : IsBuilder b) (tenant user : Text) where
  -- The keys with two and with three validated parts behind `purpose ∷ kind`.
  two_parts :
      (purpose kind key : Text)
      → IsPlain purpose
      → IsPlain kind
      → (do
        t ← validated_segment tenant
        u ← validated_segment user
        ok (join (b.prefix ∷ b.environment ∷ purpose ∷ kind ∷ t ∷ u ∷ [])))
        ≡ ok key
      → IsKeyOf key (b.prefix ∷ b.environment ∷ purpose ∷ kind ∷ strip tenant ∷ strip user ∷ [])
  two_parts purpose kind key hp hk h =
      let (t, ht, r) = >>=-eq-ok (validated_segment tenant) _ h in
      let (u, hu, last) = >>=-eq-ok (validated_segment user) _ r in
      let (et, pt) = validated_segment-ok tenant t ht in
      let (eu, pu) = validated_segment-ok user u hu in
      rw (← et, ← eu)
        (sym (ok-injective _ key last), (valid.0, (valid.1, (hp, (hk, (pt, (pu, tt)))))))

  three_parts :
      (purpose kind part key : Text)
      → IsPlain purpose
      → IsPlain kind
      → (do
        t ← validated_segment tenant
        u ← validated_segment user
        p ← validated_segment part
        ok (join (b.prefix ∷ b.environment ∷ purpose ∷ kind ∷ t ∷ u ∷ p ∷ [])))
        ≡ ok key
      → IsKeyOf key
          (b.prefix ∷ b.environment ∷ purpose ∷ kind ∷ strip tenant ∷ strip user ∷ strip part ∷ [])
  three_parts purpose kind part key hp hk h =
      let (t, ht, r) = >>=-eq-ok (validated_segment tenant) _ h in
      let (u, hu, r') = >>=-eq-ok (validated_segment user) _ r in
      let (p, hpart, last) = >>=-eq-ok (validated_segment part) _ r' in
      let (et, pt) = validated_segment-ok tenant t ht in
      let (eu, pu) = validated_segment-ok user u hu in
      let (ep, pp) = validated_segment-ok part p hpart in
      rw (← et, ← eu, ← ep)
        (sym (ok-injective _ key last), (valid.0, (valid.1, (hp, (hk, (pt, (pu, (pp, tt))))))))

same_segments :
    (key s t : Text) (ss ts : List Text)
    → IsKeyOf key (s ∷ ss)
    → IsKeyOf key (t ∷ ts)
    → s ∷ ss ≡ t ∷ ts
same_segments key s t ss ts h h' = join-injective s t ss ts h.1 h'.1 (sym h.0 ∙ h'.0)

-- The third segment tells the purposes apart.
differ :
    (key key' a b c a' b' c' : Text) (ss ss' : List Text)
    → c ≢ c'
    → IsKeyOf key (a ∷ b ∷ c ∷ ss)
    → IsKeyOf key' (a' ∷ b' ∷ c' ∷ ss')
    → key ≢ key'
differ key key' a b c a' b' c' ss ss' ne h h' q =
    let same = join-injective a a' (b ∷ c ∷ ss) (b' ∷ c' ∷ ss') h.1 h'.1 (sym h.0 ∙ q ∙ h'.0) in
    ne (cc same)

module _ (p e p' e' : Text) (b b' : RedisKeyBuilder) (built : redis_key_builder p e ≡ ok b)
    (built' : redis_key_builder p' e' ≡ ok b') where
  -- Two order cache keys, of the same or of two configurations, are equal only for the same prefix
  -- and environment and, up to spaces at the ends, the same tenant, user and order.
  pub order_cache-injective :
      (tenant user order tenant' user' order' key : Text)
      → order_cache b tenant user order ≡ ok key
      → order_cache b' tenant' user' order' ≡ ok key
      → (b ≡ b')
        × (strip tenant ≡ strip tenant')
        × (strip user ≡ strip user')
        × (strip order ≡ strip order')
  unfolding order_cache
  order_cache-injective tenant user order tenant' user' order' key h h' =
      let same =
        same_segments key _ _ _ _
          (three_parts b (redis_key_builder-IsPlain p e b built) tenant user (lit "cache")
            (lit "order") order key refl refl h)
          (three_parts b' (redis_key_builder-IsPlain p' e' b' built') tenant' user' (lit "cache")
            (lit "order") order' key refl refl h') in
      ground arith

  -- Two rate limit keys, of the same or of two configurations, are equal only for the same prefix
  -- and environment and, up to spaces at the ends, the same tenant and user.
  pub chat_rate_limit-injective :
      (tenant user tenant' user' key : Text)
      → chat_rate_limit b tenant user ≡ ok key
      → chat_rate_limit b' tenant' user' ≡ ok key
      → (b ≡ b') × (strip tenant ≡ strip tenant') × (strip user ≡ strip user')
  unfolding chat_rate_limit
  chat_rate_limit-injective tenant user tenant' user' key h h' =
      let same =
        same_segments key _ _ _ _
          (two_parts b (redis_key_builder-IsPlain p e b built) tenant user (lit "rate") (lit "chat")
            key refl refl h)
          (two_parts b' (redis_key_builder-IsPlain p' e' b' built') tenant' user' (lit "rate")
            (lit "chat") key refl refl h') in
      ground arith

  -- A cached order, a rate counter and an idempotency record never share a key, whoever they are
  -- for.
  pub purposes_differ :
      (tenant user order tenant' user' tenant'' user'' idempotency_key cache_key rate_key
        claim : Text)
      → order_cache b tenant user order ≡ ok cache_key
      → chat_rate_limit b' tenant' user' ≡ ok rate_key
      → refund_idempotency b tenant'' user'' idempotency_key ≡ ok claim
      → (cache_key ≢ rate_key) × (cache_key ≢ claim) × (claim ≢ rate_key)
  unfolding order_cache chat_rate_limit refund_idempotency
  purposes_differ tenant user order tenant' user' tenant'' user'' idempotency_key cache_key rate_key
        claim h h' h'' =
      let cache =
        three_parts b (redis_key_builder-IsPlain p e b built) tenant user (lit "cache")
          (lit "order") order cache_key refl refl h in
      let rate =
        two_parts b' (redis_key_builder-IsPlain p' e' b' built') tenant' user' (lit "rate")
          (lit "chat") rate_key refl refl h' in
      let refund =
        three_parts b (redis_key_builder-IsPlain p e b built) tenant'' user'' (lit "idempotency")
          (lit "refund") idempotency_key claim refl refl h'' in
      (
        λ q. differ _ _ _ _ _ _ _ _ _ _ (λ c. ground arith) cache rate q,
        λ q. differ _ _ _ _ _ _ _ _ _ _ (λ c. ground arith) cache refund q,
        λ q. differ _ _ _ _ _ _ _ _ _ _ (λ c. ground arith) refund rate q,
      )
