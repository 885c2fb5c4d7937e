-- ===== src/LogBuffer/Tests.antt =====
-- A buffer for two entries that gets three.
use wasteless.Common.{String, ◌≡◌, refl, Option, none, some, List, [], ◌∷◌}
use wasteless.LogBuffer.{Entry, Handler, new_handler, emit, query, last_of}
use wasteless.LogBuffer.Latest.{
  emit_all, captured, latest, handler_of, emit_all-new_handler, query-emit_all,
}

abbrev entry : String → Entry
entry m = record {
  ts = "2025-01-01 00:00:00.000";
  level = "INFO";
  levelno = 20;
  logger = "root";
  message = m;
  id = 0;
}

abbrev two : Handler
two = record {
  maxlen = 2;
  buffer = record (entry "a") { id = 1 } ∷ record (entry "b") { id = 2 } ∷ [];
  next_id = 3;
}

abbrev filled : Handler
filled = emit (some (entry "b")) (emit (some (entry "a")) (new_handler 2))

holds_two : filled ≡ two
unfolding emit new_handler
holds_two = refl

-- One of the records cannot be formatted.
abbrev records : List (Option Entry)
records = some (entry "a") ∷ none ∷ some (entry "b") ∷ []

emit_all-new_handler_example : emit_all records (new_handler 2) ≡ handler_of 2 (captured 1 records)
emit_all-new_handler_example = emit_all-new_handler 2 records

polled : (query (λ s. s) 0 0 "" 5 (emit_all records (new_handler 2))).entries ≡ two.buffer
unfolding query emit_all emit new_handler
polled = refl

query-emit_all_example :
    (query
      (λ s. s)
      (query (λ s. s) 0 30 "b" 1 (emit_all records (new_handler 2))).last_id
      0
      ""
      5
      (emit_all records (emit_all records (new_handler 2)))).entries
    ≡ last_of 5 (latest 2 (captured 3 records))
unfolding captured
query-emit_all_example = query-emit_all (λ s. s) 2 0 30 1 5 "b" records records refl
