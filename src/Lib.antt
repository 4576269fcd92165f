-- ===== src/Lib.antt =====
-- TracePilot, a network incident copilot: a model of its backend and of its collector, and what
-- makes them correct.
--
-- The program. A collector (collector/collector.py) traces TCP connections with eBPF probes, parses
-- the records that the kernel hands over (collector/event_parser.py) and posts them in batches to
-- an API (backend/app/main.py), which stores them as rows of `connection_events`
-- (backend/app/models.py). A request to investigate runs an agent (backend/app/agent.py): an LLM
-- provider (backend/app/llm) asks for tools, which read the events (backend/app/agent_tools.py);
-- every tool call leaves a row in `agent_tool_calls`; and the report is accepted only if the events
-- that it cites were returned by the tools. The investigation is stored with its outcome.
--
-- Where it is modelled.
--   Prelude      numbers, tests, lists, equality, decimal text: shared by all
--   Json, Exec   Python values; code that changes the store and may raise
--   Store        models.py: the three tables, with the clock and the source of UUIDs
--   Sql          SELECT as a value. PostgreSQL is a parameter, `Engine`, with the meaning of the
--                clauses as its law, `IsEngine`; Sql.Reference is an engine that meets it
--   Evidence     agent.py: `extract_tool_event_ids`, `cited_event_ids`, `validate_report_evidence`
--   Tools        agent_tools.py: the argument models, the five tools, `execute_agent_tool`
--   Llm          llm/base.py, llm/factory.py: a provider is a record of functions on its own state;
--                llm/mock_provider.py: the provider of the demo mode; llm/gemini_provider.py and
--                llm/openai_provider.py on their clients
--   Agent        agent.py: `run_investigation_agent`; Agent.Simulation compares providers
--   Api          main.py and schemas.py: the handlers of events, analytics and investigations;
--                Api.System has the stores that sequences of requests lead to
--   Collector    the probes, the parser, and the batching of events; Collector.Outbox has the
--                abstract queue that the loop refines, and the collector with the API behind a
--                network that loses requests and replies
--   Simulator    simulator/simulator.py: the demo incident, posted to Api and looked for with Tools
--   Tests        runs at concrete data, and each theorem at an input that meets its conditions
--
-- Conventions. Text is a list of code points; dict keys and tool names are native strings. A time
-- is a number of microseconds since `datetime.min`, in UTC; a float is its bit pattern, which no
-- modelled code computes with. A list of rows stands for a table, in the order of insertion; rows
-- that an ORDER BY does not tell apart may come in any order. Code that changes the database takes
-- the store and gives it back, also beside an exception, since what was committed stays. What the
-- source takes from libraries is an argument: `World` (UUIDs, the clock, `isoformat`), `Pydantic`
-- (how a value is read as an int or a time), `Unicode` (digits and letters), `Platform` (byte
-- order, float division, `datetime`, UTF-8, `inet_ntop`), `Api` (how the collector's requests end),
-- `Client` (the OpenAI or the Gemini service).
--
-- Bounds. The agent loop runs the 8 rounds of `maximum_rounds`, by recursion on the rounds left.
-- The flush of the collector recurs on fuel, as much as there are pending events: each round that
-- goes on removes one at least. The simulator's wait for the API recurs on fuel, the number of
-- polls; any fuel beyond the first poll that succeeds is enough. Decimal digits recur on fuel, one
-- more than the number.
--
-- Not modelled: the answers of the LLM services, and arguments of an OpenAI call that are JSON but
-- no object; failures of the database, but for events that do not fit into their columns (so a PID
-- of 2^31 or more in a SELECT, or a tool name longer than its column, is answered here); clients
-- other than the collector that post events between its requests, in Collector.Outbox; how FastAPI
-- reads a request; the health checks, the creation of the tables and the session, which only call
-- libraries; losses of the perf buffer; the tests, the containers. The padding that the perf buffer
-- adds to what a probe submits is a condition of Collector.Buffer.Samples; elsewhere the bytes of a
-- callback are any bytes.
mod Prelude
pub mod Json
pub mod Evidence
pub mod Sql
pub mod Store
pub mod Exec
pub mod Tools
pub mod Llm
pub mod Agent
pub mod Api
pub mod Collector
pub mod Simulator
mod Tests
