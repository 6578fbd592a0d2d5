-- ===== src/Llm/Chain/Tests.antt =====
-- A chain of three providers: the first has no slot, the second fails, the third answers.
use memento_mcp.Base.{ℕ, ◌≡◌, refl, ◌↔◌, List, [], ◌∷◌, some, true, false, ok}
use memento_mcp.Llm.Chain.{
  result, fails, available, Entry, Deadline, is_over, acquired, released, called, build_chain,
  call_chain, llm_json,
}
use memento_mcp.Llm.Chain.Laws.{
  Bracketed, First, IsChain, llm_json-Bracketed, call_chain-First, build_chain-IsChain,
}

abbrev no_slot : Entry ℕ
no_slot = record {
  name = "openai";
  is_object = true;
  key = "openai||";
  slot_key = "openai||";
  known = true;
  checked_at = 1;
  check = available;
  called_at = 10;
  slot = false;
  waited_until = 20;
  reply = result 1;
}

abbrev failing : Entry ℕ
failing = record {
  name = "groq";
  is_object = true;
  key = "groq||";
  slot_key = "groq||";
  known = true;
  checked_at = 2;
  check = available;
  called_at = 21;
  slot = true;
  waited_until = 22;
  reply = fails "HTTP 429";
}

abbrev answering : Entry ℕ
answering = record {
  name = "ollama";
  is_object = true;
  key = "ollama||";
  slot_key = "ollama||";
  known = true;
  checked_at = 3;
  check = available;
  called_at = 30;
  slot = true;
  waited_until = 31;
  reply = result 3;
}

abbrev deadline : Deadline
deadline = record { started_at = 0; timeout_ms = some 100 }

abbrev fallbacks : List (Entry ℕ)
fallbacks = failing ∷ failing ∷ answering ∷ []

abbrev chain : List (Entry ℕ)
chain = no_slot ∷ failing ∷ answering ∷ []

build_chain-twice : build_chain deadline no_slot fallbacks ≡ ok chain
unfolding build_chain is_over
build_chain-twice = refl

llm_json-effects :
    (llm_json true deadline no_slot fallbacks).effects
    ≡ acquired "groq||"
      ∷ called "groq||"
      ∷ released "groq||"
      ∷ acquired "ollama||"
      ∷ called "ollama||"
      ∷ released "ollama||"
      ∷ []
unfolding llm_json is_over
llm_json-effects = refl

llm_json-Bracketed_example : Bracketed (llm_json true deadline no_slot fallbacks).effects
llm_json-Bracketed_example = llm_json-Bracketed deadline no_slot fallbacks

call_chain-First_example :
    ((call_chain true deadline (ok chain)).outcome ≡ ok 3) ↔ First true deadline chain 3
call_chain-First_example = call_chain-First true deadline chain 3

build_chain-IsChain_example : IsChain [] chain
build_chain-IsChain_example = build_chain-IsChain deadline no_slot fallbacks chain build_chain-twice
