-- ===== src/Swish/Qr/Laws.antt =====
-- What the cache of internal/swish/qr.go may answer with.
use swosh.Common.{
  ℕ, ◌+◌, ◌<◌, ◌≡◌, refl, ap, ◌∙◌, subst, ◌⊎◌, inl, inr, Option, none, some, arith, eqb, Bool-cases,
  Result, ok, err,
}
use swosh.Common.Bytes.{Bytes, take}
use swosh.Swish.{Payment}
use swosh.Swish.Qr.{
  Lru, Answer, not_built, no_answer, answered, QrError, qr_request, Swish, QrClient, received,
  unless_cached, png, max_qr_size, new_qr_client,
}

-- How the cache behaves: an entry is gone, was just added under its key, or is as before, an entry
-- just added is found, looking up changes no entry, and a new cache is empty.
pub record IsLru (l : Lru) : Type 0 where
  pub get-add :
      (p q : Payment) (b : Bytes) (c : l.Cache)
      → ((l.get q (l.add p b c)).0 ≡ none)
        ⊎ ((q ≡ p) × ((l.get q (l.add p b c)).0 ≡ some b))
        ⊎ ((l.get q (l.add p b c)).0 ≡ (l.get q c).0)
  pub add_found : (p : Payment) (b : Bytes) (c : l.Cache) → (l.get p (l.add p b c)).0 ≡ some b
  pub get-get : (p q : Payment) (c : l.Cache) → (l.get q (l.get p c).1).0 ≡ (l.get q c).0
  pub get-new : (q : Payment) (n : ℕ) → (l.get q (l.new n)).0 ≡ none

module _ (l : Lru) (swish : Swish) where
  -- The bytes are what Swish answered one of the first `n` requests with, which was for this payment.
  pub record IsAnswer (n : ℕ) (p : Payment) (b : Bytes) : Type 0 where
    pub request : ℕ
    pub body : Bytes
    pub made : request < n
    pub answer : swish request (qr_request p) ≡ answered 200 (some body)
    pub bytes : b ≡ take max_qr_size body

  abbrev pub IsEntry : ℕ → Payment → Option Bytes → Type 0
  IsEntry n q none = Unit
  IsEntry n q (some x) = IsAnswer n q x

  -- Every entry of the cache is an answer to a request for its payment.
  abbrev pub IsGenuine : QrClient l swish → Type 0
  IsGenuine c = (q : Payment) → IsEntry c.asked q (l.get q c.cache).0

  -- A code is an answer to a request for its payment; an error comes with no code.
  abbrev pub IsGiven : ℕ → Payment → Result QrError Bytes → Type 0
  IsGiven n p (ok b) = IsAnswer n p b
  IsGiven n p (err e) = Unit

  IsEntry-later : (n : ℕ) (q : Payment) (o : Option Bytes) → IsEntry n q o → IsEntry (n + 1) q o
  IsEntry-later n q none a = tt
  IsEntry-later n q (some b) a = record {
    request = a.request;
    body = a.body;
    made = let lt = a.made in omega arith;
    answer = a.answer;
    bytes = a.bytes;
  }

  module _ (h : IsLru l) where
    pub new_qr_client-IsGenuine : IsGenuine (new_qr_client l swish)
    new_qr_client-IsGenuine q = rw (h.get-new q 1024) tt

    added-IsGenuine :
        (p : Payment) (c : QrClient l swish) (b : Bytes)
        → IsGenuine c
        → IsAnswer c.asked p b
        → IsGenuine (record c { cache = l.add p b c.cache })
    added-IsGenuine p c b g a q = elim (h.get-add p q b c.cache) [
      | inl gone ↦ rw gone tt
      | inr (inl (same, new)) ↦ rw new (rw same a)
      | inr (inr before) ↦ rw before (g q)
    ]

    received-IsGenuine :
        (p : Payment) (c : QrClient l swish) (n : ℕ) (a : Answer)
        → c.asked ≡ n + 1
        → swish n (qr_request p) ≡ a
        → IsGenuine c
        → IsGenuine (received l swish p c a).1
          × IsGiven (received l swish p c a).1.asked p (received l swish p c a).0
    received-IsGenuine p c n not_built asked at g = (g, tt)
    received-IsGenuine p c n no_answer asked at g = (g, tt)
    received-IsGenuine p c n (answered status none) asked at g =
        elim (Bool-cases (eqb status 200)) [ inl fine ↦ rw fine (g, tt) | inr bad ↦ rw bad (g, tt) ]
    received-IsGenuine p c n (answered status (some body)) asked at g =
        elim (Bool-cases (eqb status 200)) [
          | inr bad ↦ rw bad (g, tt)
          | inl fine ↦
              let ok_status : status ≡ 200 = ground arith in
              let new : IsAnswer c.asked p (take max_qr_size body) = record {
                request = n;
                body = body;
                made = omega arith;
                answer = at ∙ ap (λ k. answered k (some body)) ok_status;
                bytes = refl;
              } in
              rw fine (added-IsGenuine p c (take max_qr_size body) g new, new)
        ]

    looked-IsGenuine :
        (p : Payment) (c : QrClient l swish) (n : ℕ)
        → IsGenuine c
        → IsGenuine (record { cache = (l.get p c.cache).1; asked = c.asked })
    looked-IsGenuine p c n g q = rw (h.get-get p q c.cache) (g q)

    -- If every cached code is an answer to a request for its payment, it is so after `PNG`, which
    -- returns such an answer for its payment or an error.
    pub png-IsGenuine :
        (p : Payment) (c : QrClient l swish)
        → IsGenuine c
        → IsGenuine (png l swish p c).1 × IsGiven (png l swish p c).1.asked p (png l swish p c).0
    unfolding png
    png-IsGenuine p c g = of_entry (l.get p c.cache) refl
      where
        of_entry :
            (e : Option Bytes × l.Cache)
            → l.get p c.cache ≡ e
            → IsGenuine (unless_cached l swish p c.asked e).1
              × IsGiven
                  (unless_cached l swish p c.asked e).1.asked
                  p
                  (unless_cached l swish p c.asked e).0
        of_entry (some b, cache) found = (
          λ q. subst (λ e. IsEntry c.asked q (l.get q e.1).0) found (looked-IsGenuine p c 0 g q),
          subst (λ e. IsEntry c.asked p e.0) found (g p),
        )
        of_entry (none, cache) missing =
            received-IsGenuine p (record { cache = cache; asked = c.asked + 1 }) c.asked _ refl refl
              (λ q. IsEntry-later c.asked q (l.get q cache).0 (
                subst (λ e. IsEntry c.asked q (l.get q e.1).0) missing
                  (looked-IsGenuine p c 0 g q)))

    given-received :
        (p : Payment) (c : QrClient l swish) (a : Answer) (b : Bytes)
        → (received l swish p c a).0 ≡ ok b
        → (l.get p (received l swish p c a).1.cache).0 ≡ some b
    given-received p c not_built b given = cc
    given-received p c no_answer b given = cc
    given-received p c (answered status none) b given = elim (Bool-cases (eqb status 200)) [
      | inl fine ↦ ground arith
      | inr bad ↦ ground arith
    ]
    given-received p c (answered status (some body)) b given = elim (Bool-cases (eqb status 200)) [
      | inl fine ↦
          let whole : take max_qr_size body ≡ b = ground arith in
          rw fine (h.add_found p (take max_qr_size body) c.cache ∙ ap some whole)
      | inr bad ↦ ground arith
    ]

    given-cached :
        (p : Payment) (c : QrClient l swish) (b : Bytes) (e : Option Bytes × l.Cache)
        → l.get p c.cache ≡ e
        → (unless_cached l swish p c.asked e).0 ≡ ok b
        → (l.get p (unless_cached l swish p c.asked e).1.cache).0 ≡ some b
    given-cached p c b (some x, cache) found given =
        let again : (l.get p cache).0 ≡ (l.get p c.cache).0 =
          subst (λ e. (l.get p e.1).0 ≡ (l.get p c.cache).0) found (h.get-get p p c.cache) in
        again ∙ ap (λ e. e.0) found ∙ (let same : x ≡ b = cc in ap some same)
    given-cached p c b (none, cache) missing given =
        given-received p (record { cache = cache; asked = c.asked + 1 })
          (swish c.asked (qr_request p)) b given

    from_cache :
        (p : Payment) (n : ℕ) (b : Bytes) (e : Option Bytes × l.Cache)
        → e.0 ≡ some b
        → ((unless_cached l swish p n e).0 ≡ ok b) × ((unless_cached l swish p n e).1.asked ≡ n)
    from_cache p n b (some x, cache) found = (let same : x ≡ b = cc in ap ok same, refl)
    from_cache p n b (none, cache) found = cc

    -- If the cache behaves as one and `PNG` has returned a code, the next `PNG` of the same
    -- payment returns the same code and asks Swish nothing.
    pub png_again :
        (p : Payment) (c : QrClient l swish) (b : Bytes)
        → (png l swish p c).0 ≡ ok b
        → ((png l swish p (png l swish p c).1).0 ≡ ok b)
          × ((png l swish p (png l swish p c).1).1.asked ≡ (png l swish p c).1.asked)
    unfolding png
    png_again p c b given =
        let c' = (png l swish p c).1 in
        from_cache p c'.asked b (l.get p c'.cache) (given-cached p c b (l.get p c.cache) refl given)
