-- ===== src/World.antt =====
-- The state that one swosh process works on, and what comes to it from outside: the clock, the
-- random numbers and the database's failures. A handler is an action on that state.
pub mod Store
use swosh.Common.{ℕ, ◌+◌, Bool, List, String, if◌then◌else◌, Result, ok, err}
use swosh.Db
use swosh.Db.{
  Time, Swosh, User, DbError, failure, CreateSwoshParams, UpdateSwoshParams, CreateUserParams,
}

-- Answers from outside, numbered in the order in which the program asks.
pub record Outside : Type 0 where
  -- `time.Now()` of the process, and `now()` of the database
  pub clock : ℕ → Time
  pub db_clock : ℕ → Time
  -- whether the n-th statement fails; a statement that fails has no effect
  pub down : ℕ → Bool
  -- the order of ids under the database's collation
  pub id_le : String → String → Bool
  -- `rand.Int(rand.Reader, max)`, and the text of 16 random bytes in a session
  pub rand_int : ℕ → ℕ → ℕ
  pub rand_nonce : ℕ → String

pub record World : Type 0 where
  pub links : List Swosh
  pub users : List User
  -- the counters of `Metrics`
  pub create_success : ℕ
  pub create_failed : ℕ
  pub expired_links : ℕ
  -- how often the clock, the database and the random source were asked
  pub readings : ℕ
  pub statements : ℕ
  pub draws : ℕ

abbrev pub Action : Type 0 → Type 0
Action A = World → A × World

abbrev pub pure : {A : Type 0} → A → Action A
pure a w = (a, w)

infixl 5 ◌>>=◌ ◌>>◌
abbrev pub ◌>>=◌ : {A B : Type 0} → Action A → (A → Action B) → Action B
◌>>=◌ m f w = let (a, w') = m w in f a w'

abbrev pub ◌>>◌ : {A B : Type 0} → Action A → Action B → Action B
m >> k = m >>= λ _. k

module _ (o : Outside) where
  unfoldable pub now : Action Time
  now w = (o.clock w.readings, record w { readings = w.readings + 1 })

  unfoldable pub random : ℕ → Action ℕ
  random max w = (o.rand_int w.draws max, record w { draws = w.draws + 1 })

  unfoldable pub nonce : Action String
  nonce w = (o.rand_nonce w.draws, record w { draws = w.draws + 1 })

  -- A statement on the links, or on the users, that the database may fail to run.
  unfoldable pub on_links :
      {A : Type 0} → (Time → List Swosh → Result DbError A × List Swosh) → Action (Result DbError A)
  on_links f w =
      let asked = record w { statements = w.statements + 1 } in
      let (r, table) = f (o.db_clock w.statements) w.links in
      if o.down w.statements then (err failure, asked) else (r, record asked { links = table })

  unfoldable pub on_users :
      {A : Type 0} → (Time → List User → Result DbError A × List User) → Action (Result DbError A)
  on_users f w =
      let asked = record w { statements = w.statements + 1 } in
      let (r, table) = f (o.db_clock w.statements) w.users in
      if o.down w.statements then (err failure, asked) else (r, record asked { users = table })
