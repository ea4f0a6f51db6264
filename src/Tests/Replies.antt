-- ===== src/Tests/Replies.antt =====
-- The Anthropic adapter: a request with thinking, a streamed reply, and a stream that is cut off.
use gori.Prelude.{
  Result, ok, String, ◌≡◌, refl, Bool, true, Option, none, some, List, [], ◌∷◌, arith,
}
use gori.Prelude.Int.{pos}
use gori.Message.{system, user, text, plan, Message, user_text, assistant_text}
use gori.Provider.{ThinkingMode, thinking_off, thinking_budget, Request, StreamEvent}
use gori.Provider.Anthropic.{
  ApiRequest, add_block, content_blocks, wire_message, add_message, add_messages, max_tokens_of,
  add_thinking, build_request, ApiUsage, ApiResponse,
}
use gori.Provider.Anthropic.Events.{
  Failure, failure, HttpReply, complete, text_delta, Frame, block_start, message_start, Ending,
  at_eof, stream,
}
use gori.Provider.Anthropic.Assembly.{
  SentBlock, sent_text, sent_thinking, sent_tool, sent_other, start_of, delta_frame, reply_frames,
}
use gori.Provider.Anthropic.Whole.{whole_reply, stream-complete}
use gori.Provider.Anthropic.Cut.{stream_cut}
use gori.Provider.Anthropic.WellFormed.{IsWellFormed, build_request-IsWellFormed}

abbrev asks : ThinkingMode → List Message → Request
asks mode ms = record {
  model = "claude";
  system = "be brief";
  messages = ms;
  tools = [];
  tool_choice = "";
  max_tokens = pos 1000;
  temperature = some "0.5";
  thinking = record { mode = mode; budget = pos 10 };
  response_modalities = [];
}

abbrev talk : List Message
talk =
    record { role = system; content = text (record { text = "in English" }) ∷ [] }
    ∷ user_text "hi"
    ∷ assistant_text ""
    ∷ record {
      role = user;
      content = plan (record { steps = "a" ∷ "b" ∷ [] }) ∷ text (record { text = "" }) ∷ [];
    }
    ∷ []

abbrev no_error : List StreamEvent → StreamEvent → Option String
no_error sent e = none

abbrev any_json : String → Bool
any_json s = true

abbrev reply_blocks : List SentBlock
reply_blocks =
    sent_thinking ("h" ∷ "m" ∷ []) ("sig" ∷ [])
    ∷ sent_other "redacted_thinking"
    ∷ sent_text ("Hel" ∷ "lo" ∷ [])
    ∷ sent_tool "t1" "add" ("{" ∷ "}" ∷ [])
    ∷ []

abbrev reply_usage : ApiUsage
reply_usage = record { input_tokens = 5; output_tokens = 7; cache_creation = 2; cache_read = 3 }

abbrev streamed : ApiRequest → Result (HttpReply (List Frame × Ending))
streamed r =
    ok (record { status = 200; body = (reply_frames reply_blocks "tool_use" reply_usage, at_eof) })

abbrev unstreamed : ApiRequest → Result (HttpReply (Unit {0}))
unstreamed r = ok (record { status = 200; body = tt })

abbrev read_reply : Unit {0} → Result ApiResponse
read_reply b = ok (whole_reply reply_blocks "tool_use" reply_usage)

abbrev cut_reply : HttpReply (List Frame × Ending)
cut_reply = record {
  status = 200;
  body = (
    message_start (some reply_usage)
        ∷ block_start (some (start_of 0 (sent_text [])))
        ∷ delta_frame 0 (text_delta "Hel")
        ∷ [],
    at_eof,
  );
}

build_request-IsWellFormed_example : IsWellFormed (build_request (asks thinking_budget talk) true)
unfolding user_text assistant_text
build_request-IsWellFormed_example =
    build_request-IsWellFormed (asks thinking_budget talk) true (omega arith) (omega arith)
      ((tt, tt), ((tt, tt), ((tt, tt), ((refl, (tt, tt)), tt))))

stream_cut_example :
    (e : Failure) × (stream no_error any_json (λ r. ok cut_reply) (asks thinking_off talk)
      ≡ failure e)
stream_cut_example =
    stream_cut no_error any_json (λ r. ok cut_reply) (asks thinking_off talk) cut_reply refl
      (tt, (tt, (tt, tt)))

stream-complete_example :
    stream no_error any_json streamed (asks thinking_off talk)
    ≡ complete unstreamed read_reply (asks thinking_off talk)
stream-complete_example =
    stream-complete no_error any_json (λ sent e. refl) streamed unstreamed read_reply
      (asks thinking_off talk) reply_blocks "tool_use" reply_usage 200 tt
      (tt, ((refl, refl, refl), (refl, ((refl, refl), tt)))) refl refl refl refl

tokens_run : (build_request (asks thinking_budget talk) true).max_tokens ≡ 5120
unfolding build_request max_tokens_of add_messages add_message wire_message content_blocks add_block
    add_thinking assistant_text user_text
tokens_run = refl
