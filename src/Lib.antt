-- ===== src/Lib.antt =====
-- Verification of the build-time rule compiler of LuminaWAF.
--
-- The translator (tools/sidecar_translator.py) takes rule statements apart, groups the rules of a
-- chain, plans the lowering of each pattern from its parse tree and lowers it to tables. The compiler
-- of expressions that it uses is tools/regex_dfa.py: Python's parser gives a parse tree,
-- `ThompsonBuilder` turns it into a graph of states, `compile_dfa_ast` determinizes the graph, and
-- `dfa_match` is the executor that the unit tests hold the generated code to;
-- `compile_bitset_nfa_ast` and `bitset_nfa_match` do the same with words of states.
--
-- The files and the code that they model:
--   Common            shared names, Boolean tests and lists over the native numbers
-- of tools/regex_dfa.py:
--   Regex/Ast         the parse tree (`re._parser`), the flags, `UnsupportedRegex` as an error value
--   Regex/Masks       `literal_mask`, `class_mask`, `_word`; Bits, Laws and Classes prove their laws
--   Regex/Meaning     what an expression means: the specification, with no graph in it
--   Regex/Ordinary    the expressions that the compilation reads as Python does
--   Regex/Thompson    `ThompsonBuilder`: `state`, `edge`, `atom`, `sequence`, `repeat`
--   Regex/Closure     the local function `closure`
--   Regex/ByteClasses the byte classes: `signatures`, `classes`, `byte_class`
--   Regex/Moves       `expanded`, `destinations`, `destination`
--   Regex/Dfa         the loop of `compile_dfa_ast`, its tables, and `dfa_match`
--   Regex/Bitset      `compile_bitset_nfa_ast` and `bitset_nfa_match`: Words cuts masks into words, Scan
--                     is the loop over the bits of a word, Alone splits a set of states into its
--                     members, Filled is the loop over the symbols, Steps compares one step
--   Regex/Tests       runs on a small expression, and the theorems at it
--   Plans/Seeds       `_unwrap_single_subpattern`, `_mandatory_literal_runs` and
--                     `compile_mandatory_seed_cover` behind the parser
--   Plans/Greedy      `requires_dfa` behind the parser
-- of tools/sidecar_translator.py:
--   Plans/CharSets    `build_bitmask_for_in`: the words of a bracketed class
--   Plans/Languages   `finite_literal_language`: the texts of a finite expression
--   Plans/Masks       `finite_mask_language`: the same, by masks of bytes and by assertions; Folds and
--                     Caseless are the folding of case in a mask
--   Plans/FirstBytes  `_ast_first_byte_set`, and `first_bytes_of` behind the parser
--   Plans/Transformed `transform_aware_first_bytes`, `transform_requires_offset_zero`
--   Plans/Tests       runs of these on small expressions, and the theorems at them
--   Rules/Text        text as code points: `strip`, `upper` and the like of Python's `str`
--   Rules/Quotes      `scan_quote`
--   Rules/Actions     `tokenize_actions`, `parse_action_kv`
--   Rules/Collections `COLLECTION_SPECS`, `HEADER_MASKS`
--   Rules/Variables   `split_variable_expression`, `parse_variable_bindings`
--   Rules/Contract    `compile_binding_contract`
--   Rules/Statement   `parse_statement`: Operator, Scores, Labels and Numbers are its parts
--   Rules/Controls    `collect_rule_removal_controls`: Reading reads the actions, Lowering and Resolved
--                     say where a control and its ids come from, Numbered is the dictionary of ids;
--                     Ranges is `parse_byte_range`, Tags is `collect_rule_target_removal_controls`,
--                     and Values is `collect_static_tx_values`
--   Rules/Transforms  `transform_mask`; Named is how a text spells the name of a transform
--   Rules/Scopes      `map_scope`, `map_header_mask`, `negated_rx_runtime_safe`
--   Rules/Chains      `group_rule_chains`, `chain_is_score_bearing`, and `parse_chains` of
--                     tools/k4_chain_parse.py; Chains/Reasons is `same_buffer_rx_chain_reason` and
--                     `same_buffer_phrase_chain_reason`
--   Rules/Tests       runs of these on short texts, and the theorems at them
--
-- A meaning of an expression is relative to a reading of repetitions and groups. `Means` is Python's:
-- what a possessive repeat and a group that changes the flags stand for is a parameter. `Matches` is
-- the loose reading of tools/regex_dfa.py: it takes a possessive repeat for an ordinary one, and the
-- flags of the whole expression for those of every group. The two agree on the expressions that have
-- neither. The entries on Plans that speak of a match are about `Matches`.
--
-- A state is a number, an index into the list of the states' edges, as in the code. Masks are
-- numbers of 256 bits. A frozen set of states is the list of its flags, so that equal sets are equal
-- keys. `state_ids` is read as the position in `states`. The parse tree names the operators that the
-- compiler refuses by a number, and their meaning is a parameter of the specification. A cursor is a
-- place in the subject: the bytes left, whether the byte before is a word byte, and whether it is the
-- beginning. `MAXREPEAT` belongs to Python's parser and is a field of the flags. A set of bytes that
-- the translator collects is its membership test. Where the translator folds the case of a text, the
-- text is taken to be ASCII. Dictionaries are association lists in the order of insertion, and
-- `sorted(set(...))` is insertion into a sorted list. The walks of the two language functions and of
-- the two `collect` functions are written once, over what they do at a single node.
--
-- Fuel: `closure` queues a state at most once, so one round for each state is enough; the loop of
-- `compile_dfa_ast` has a round for each state of the budget and one more. The loop over the marks in
-- front of a variable has a round for each character; the loop over the bits of a word has 64 rounds.
-- All four are proved enough.
--
-- The two executors raise an `IndexError` at an offset behind the end of the subject, which is an error
-- value here. A negative offset is not modelled.
--
-- Not modelled: the seeded branches, the emission of C text, the reading of rule files, the
-- classification of chains, and the dictionaries of the members of a chain in `parse_chains`. `is_score_bearing_detection` is a search by
-- Python's `re` in the text of a rule, and its verdict is a flag of the rule. Python's parser is
-- not part of the repository.
pub mod Common
pub mod Regex
pub mod Plans
pub mod Rules
