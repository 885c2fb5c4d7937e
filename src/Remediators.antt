-- ===== src/Remediators.antt =====
-- The backend remediators of src/remediators: the world that they act on, and the parts that they
-- share.
--
-- What lies outside is an `Environment`: what boto3 answers to each write, what the database answers
-- to each statement, the clock, the configuration. A run is a function of the environment and the
-- world. A call is answered by what it is and by the world it is made in, the tables and the
-- requests sent so far: the same call may fail for one recommendation of a batch after it has
-- worked for another, unless neither the tables nor the requests have changed in between. After a
-- statement has failed PostgreSQL refuses every later one on that connection until a rollback,
-- which no remediator asks for.
pub mod Ec2
pub mod Kinds
pub mod Resource
pub mod Rules
pub mod Tables
use wasteless.Common.{
  ℕ, String, Bool, true, false, Option, none, some, List, [], ◌∷◌, if◌then◌else◌,
}
use wasteless.Python.{Value, Exn, error, aws, database, in_failed_transaction, Result, ok, raised}
use wasteless.Safeguards.{Clock}
use wasteless.Store.{Store}

-- The statements that a remediator executes, each with the commit that follows it.
pub data Statement : Type 0 where
  select_recommendation insert_action insert_rollback attach_snapshot update_action
        update_recommendation commit update_status select_pending try_lock unlock :
      Statement

-- The requests that change something in AWS.
pub data Write : Type 0 where
  stop_instances start_instances : String → Write
  modify_volume create_snapshot delete_volume : String → Write
  delete_nat_gateway delete_classic_load_balancer delete_load_balancer : String → Write
  release_address delete_snapshot deregister_image : String → Write

pub record World (F : Type 0) : Type 0 where
  pub store : Store F
  -- the connection's transaction has failed
  pub aborted : Bool
  -- the write requests sent to AWS, newest first
  pub writes : List Write

pub record Environment (F : Type 0) : Type 0 where
  pub config : Value F
  pub clock : Clock
  -- `self.dry_run`
  pub dry_run : Bool
  -- the text of the error with which a statement or a write fails that is sent in this world
  pub db : World F → Statement → Option String
  pub answer : World F → Write → Option String
  -- whether a write that fails does so with a ClientError of botocore
  pub is_client_error : Write → Bool
  -- the id that `create_snapshot` returns
  pub snapshot_id : String

abbrev pub Action : Type 0 → Type 0 → Type 0
Action F A = World F → Result A × World F

module _ {F : Type 0} where
  abbrev pub pure : {A : Type 0} → A → Action F A
  pure a w = (ok a, w)

  abbrev pub lift : {A : Type 0} → Result A → Action F A
  lift r w = (r, w)

  abbrev pub gets : {A : Type 0} → (Store F → A) → Action F A
  gets f w = (ok (f w.store), w)

  abbrev pub modify : (Store F → Store F) → Action F (Unit {0})
  modify f w = (ok tt, record w { store = f w.store })

  abbrev pub continue : {A B : Type 0} → (A → Action F B) → Result A × World F → Result B × World F
  continue f (ok a, w) = f a w
  continue f (raised e, w) = (raised e, w)

  infixl 5 ◌>>=◌ ◌>>◌
  abbrev pub ◌>>=◌ : {A B : Type 0} → Action F A → (A → Action F B) → Action F B
  ◌>>=◌ m f w = continue f (m w)

  abbrev pub ◌>>◌ : {A B : Type 0} → Action F A → Action F B → Action F B
  m >> k = m >>= λ _. k

  abbrev pub answered : Option String → Action F (Unit {0})
  answered none w = (ok tt, w)
  answered (some text) w = (raised (error (database text)), record w { aborted = true })

  abbrev pub replied : Option String → Action F (Unit {0})
  replied none w = (ok tt, w)
  replied (some text) w = (raised (error (aws text)), w)

  abbrev pub sent : Write → World F → World F
  sent write w = record w { writes = write ∷ w.writes }

  -- `cursor.execute`
  unfoldable pub execute : Environment F → Statement → Action F (Unit {0})
  execute env statement w =
      if w.aborted
      then (raised (error in_failed_transaction), w)
      else answered (env.db w statement) w

  -- A write request to AWS.
  unfoldable pub request : Environment F → Write → Action F (Unit {0})
  request env write w = replied (env.answer w write) (sent write w)
