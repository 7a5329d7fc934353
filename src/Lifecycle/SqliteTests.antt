-- ===== src/Lifecycle/SqliteTests.antt =====
-- Runs of the store in a database, on a small JSON, and its theorems at concrete inputs.
use iicp_client_rust.Base.{
  ℕ, String, ◌≡◌, refl, Bool, true, false, List, [], ◌∷◌, Option, none, some, err, arith, map,
}
use iicp_client_rust.Base.Words.{pos}
use iicp_client_rust.Lifecycle.Types.{conflict}
use iicp_client_rust.Lifecycle.Store
use iicp_client_rust.Lifecycle.Sqlite.{open_db}
use iicp_client_rust.Lifecycle.Sqlite.Calls.{
  Call, submit_call, status_call, transition_call, events_call, run_db, run_store,
}
use iicp_client_rust.Lifecycle.Sqlite.Replies.{first_reply}
use iicp_client_rust.Lifecycle.Sqlite.Runs.{run_db-run_store}
use iicp_client_rust.Lifecycle.Detail.{Json, content_free_detail, members, member}

mutual
  data Doc : Type 0 where
    null : Doc
    number : ℕ → Doc
    text : String → Doc
    letters : List ℕ → Doc
    tree : Fields → Doc

  data Fields : Type 0 where
    empty : Fields
    field : String → Doc → Fields → Fields

to_list : Fields → List (String × Doc)
to_list empty = []
to_list (field key doc rest) = (key, doc) ∷ to_list rest

of_list : List (String × Doc) → Fields
of_list [] = empty
of_list ((key, doc) ∷ rest) = field key doc (of_list rest)

abbrev is_null : Doc → Bool
is_null null = true
is_null (number n) = false
is_null (text s) = false
is_null (letters cs) = false
is_null (tree fs) = false

abbrev as_object : Doc → Option (List (String × Doc))
as_object null = none
as_object (number n) = none
as_object (text s) = none
as_object (letters cs) = none
as_object (tree fs) = some (to_list fs)

abbrev as_u64 : Doc → Option ℕ
as_u64 null = none
as_u64 (number n) = some n
as_u64 (text s) = none
as_u64 (letters cs) = none
as_u64 (tree fs) = none

abbrev as_str : Doc → Option String
as_str null = none
as_str (number n) = none
as_str (text s) = some s
as_str (letters cs) = none
as_str (tree fs) = none

abbrev small_json : Json Doc
small_json = record {
  is_null = is_null;
  as_object = as_object;
  as_u64 = as_u64;
  as_str = as_str;
  object = λ ms. tree (of_list ms);
  string = letters;
}

-- Half of the tokens are there, for a given reason.
abbrev half_way : Doc
half_way = tree (
    field "progress"
      (tree (field "completed_units" (number 5) (field "total_units" (number 10) empty)))
      (field "reason_code" (text "tick.1") empty))

-- A detail that carries what the task answered.
abbrev with_content : Doc
with_content = tree (field "answer" (text "42") empty)

with_content_lem :
    content_free_detail small_json with_content
    ≡ err (conflict "durable lifecycle detail contains unsupported field: answer")
unfolding content_free_detail to_list members member
with_content_lem = refl

-- A task is submitted twice, moved, fails to be moved on, is read, and has run out at last.
abbrev some_calls : List (Call Doc)
some_calls =
    submit_call none 5 "t1" "k1" "d1"
    ∷ submit_call none 6 "t2" "k1" "d1"
    ∷ transition_call none 7 "t1" "running" half_way
    ∷ transition_call (some "disk full") 8 "t1" "completed" null
    ∷ transition_call none 8 "t1" "running" with_content
    ∷ transition_call none 9 "t1" "completed" null
    ∷ events_call none 10 "t1" (pos 1)
    ∷ status_call none 2000 "t1"
    ∷ []

run_db-run_store_example :
    run_db small_json (open_db 2 1000) some_calls
    ≡ map (first_reply (tree empty)) (run_store small_json null (Store.new 2 1000) some_calls)
unfolding of_list
run_db-run_store_example =
    run_db-run_store small_json null 2 1000 some_calls (omega arith) (omega arith)
