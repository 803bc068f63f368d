-- ===== src/Lib.antt =====
-- vim-clap, the fuzzy picker of Vim: the parts of its Rust backend that decide what the user sees.
--
-- The backend (crates/) reads items from a source, matches each against the query, ranks what matches
-- (crates/types), keeps the best results while the stream goes on (crates/filter), and prints them to the
-- editor. Beside it a server (crates/maple_core/src/stdio_server) receives events of the editor, starts
-- providers for them, records what the user typed, collects the diagnostics of linters (crates/code_tools)
-- and language servers, and passes events on to plugins.
--
-- Files and the code they model:
--   Common, Common/*        what the components share: Boolean tests and list functions over the native
--                           numbers, integers with their wrap-around, sorting by a strict order, maps with
--                           numbers as keys, handlers that may fail and leave what they changed.
--   Text                    texts as lists of code points, and the functions of `str` that the code calls.
--                           What Unicode tables decide is a parameter, the record `Unicode`.
--   Types/Rank              crates/types/src/matcher.rs: scores (i32, wrapping), criteria, ranks.
--   Types/SearchTerm        crates/types/src/search_term.rs: the terms, their parsing, `is_superset`.
--   Types/Query             crates/types/src/query.rs: `Query::from`, the loop over the words of an input.
--   Types/SourceItem        crates/types/src/source_item.rs: `MatchedItem` and its order, by rank.
--   Types/Item              `ClapItem` of that file as the record of its methods, and the types that
--                           implement it; `to_clap_item` of crates/filter/src/lib.rs.
--   Types/Scope             `CaseMatching` of crates/types/src/lib.rs, `MatchScope` of source_item.rs.
--   Filter/Sequential       crates/filter/src/sequential_worker.rs: the queues `top_ranks` and
--                           `top_results` beside the buffer, `initialize_buffer`, the macro `insert_both!`,
--                           `dyn_collect_all`, `dyn_collect_number` and the end of `dyn_run`. The matched
--                           items are a list, in the order of the stream.
--   Filter/Parallel         crates/filter/src/parallel_worker.rs: `BestItems`; a call of `on_new_match` is
--                           an event with the time of the clock, a run is the list of the calls in the
--                           order in which the threads take the lock. The printer is that of Printer, and
--                           `none` is its panic or that of `expect`.
--   Filter/Parallel/Lines   `par_dyn_run_inner` and `par_dyn_run_inprocess` of that file: `to_clap_item`, then
--                           `match_item`, then `on_new_match`, and what is shown at the end. The lines stand
--                           in the order in which they are finished, each with its time and with what the
--                           stop signal says.
--   Filter/Items            `par_filter` of crates/filter/src/lib.rs and `filter_sequential` of
--                           sequential_source.rs: all the matches, sorted. The lines of a file or of a
--                           command are given; `none` is a source that does not open.
--   Matcher                 crates/matcher/src/lib.rs: the builder, `match_item`, `match_file_result`. What
--                           the code calls of other crates and libraries is the record `Crates`.
--   Matcher/Inverse, Exact, Word, Fuzzy, Substring, Bonuses
--                           the matchers of crates/matcher/src/matchers, crates/matcher/src/algo.
--   Service/Forward         crates/maple_core/src/stdio_server/service.rs: the task that `ProviderSession::new`
--                           spawns, with its timers and the cache of events; Service/Forward/Moves is
--                           about its timer for moves.
--   Service/Session         both event loops of a `ProviderSession`: a wakeup is an event, the closed channel
--                           or a timer that elapses, with its time. What the session calls is a list.
--   Service/Plugins         the event loops of a `PluginSession`.
--   Service/Manager         `ServiceManager`; Service/Manager/Backend is `Backend` of stdio_server/mod.rs.
--   Rpc                     crates/rpc/src/jsonrpc.rs: the parameters of a message.
--   Utils                   crates/utils/src/lib.rs: positions of chars and bytes, the width of a number.
--   Utils/ByteLines         crates/utils/src/bytelines.rs: the lines of a byte slice, decoded by the record
--                           `Utf8` of what the libraries do.
--   CodeTools               crates/code_tools/src/language.rs and analyzer: languages, comments, keywords.
--   Printer                 crates/printer/src/lib.rs, truncation.rs: the lines that are displayed.
--   Trimmer                 crates/printer/src/trimmer/v1.rs: a text cut to the width of its window.
--   Git, Git/Blame          crates/maple_core/src/tools/git/mod.rs: hunks, their summary, signs; the blame.
--   Git/Plugin              crates/maple_core/src/stdio_server/plugin/git.rs: tracked buffers and their signs,
--                           Git/Plugin/Events its events and actions. What Vim and git answer during one event
--                           is the record `Answers`; what Vim is told is a list.
--   Highlighter             crates/maple_core/src/stdio_server/plugin/word_highlighter.rs, with the functions of
--                           crates/matcher/src/matchers/word_matcher.rs that only it calls.
--   Highlighter/Plugin      the state of that plugin and its autocmds, the calls of Vim as a list.
--   Ctags                   crates/maple_core/src/stdio_server/plugin/ctags.rs: the symbol at the cursor;
--                           `shrink_text_to_fit` of stdio_server/winbar.rs.
--   Markdown                crates/maple_markdown/src/toc.rs: the table of contents of a file.
--   Markdown/Plugin         crates/maple_core/src/stdio_server/plugin/markdown.rs: the actions on that table in a
--                           buffer and its file; how Vim deletes and appends lines is the record `VimLines`.
--   JsonPatch               crates/maple_lsp/src/json_patch.rs: `merge`.
--   Diagnostics             crates/code_tools/src/linting/mod.rs and the buffer state of
--                           crates/maple_core/src/stdio_server/diagnostics_worker.rs.
--   Diagnostics/Worker      the worker of that file: a step is `handle`, the editor's answers are an
--                           argument (`Vim`), the calls that the worker makes are returned (`VimCall`).
--   Input                   crates/maple_core/src/stdio_server/input.rs: events and their parsing.
--   Input/Recorder          `InputRecorder` of that file, Input/History its `InputHistory`.
--   RecentFiles             crates/maple_core/src/recent_files.rs: entries with their scores, `upsert`,
--                           `remove_invalid_entries`. Times (`Clock`) and the file system are parameters.
--   Cache                   crates/maple_core/src/cache/mod.rs: the digests of cached commands, their lookup,
--                           `limited_push`, and the cleaning of old entries.
--   Tests, Tests/*          runs on concrete inputs.
--
-- A sort of the code that need not be stable is modelled by the stable `sort`; a hash map is an
-- association list. A panic is `none` or `panicked`; a division is given a divisor above 0, by its type;
-- an i32 wraps, as it does in a release build. Loops are structural recursion on the list that the code
-- iterates over, but for those on fuel: `replace_by_space` gets the length of the text, and each round
-- drops a char; `lines` gets the length of the text, and each line is shorter; `display_width` of Utils
-- gets the number, which each round divides by ten.
--
-- Not modelled: printing, clocks (`Watcher`), processes and channels, the fuzzy algorithms (fzy, skim, fzf,
-- nucleo, which are other projects'), regular expressions, the providers and their previews, the plugins other
-- than the four above (colorizer, diagnostics, linter, lsp, syntax), the client of language servers, requests
-- of the editor, and the configuration.
pub mod Common
pub mod Text
pub mod Types
pub mod Filter
pub mod Diagnostics
pub mod Input
pub mod RecentFiles
pub mod Cache
pub mod Utils
pub mod Matcher
pub mod Git
pub mod Highlighter
pub mod Ctags
pub mod Trimmer
pub mod Printer
pub mod CodeTools
pub mod JsonPatch
pub mod Markdown
pub mod Rpc
pub mod Service
pub mod Tests
