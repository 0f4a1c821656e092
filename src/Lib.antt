-- ===== src/Lib.antt =====
-- AppStream: a verification library for the core of libappstream, which decides which of two
-- versions is newer, whether a system satisfies the relations of a software component, how well a
-- component fits a system, what a license expression means, from which age software may be used,
-- which dataset a component belongs to, which issues a metadata file has, and which of two
-- components of one data id a pool keeps.
--
-- Parts, and the code they follow:
--
-- Base: the types, operators and lemmas that all parts share. Strings are lists of bytes that
-- contain no NUL (Base/Text); `deref` of the empty list is the terminating NUL. A C `int` or
-- `long` is an integer ℤ over the native numbers (Base/Int). `char` is signed, as on the usual
-- platforms (`char_lt`).
--
-- Vercmp: src/as-vercmp.c. `vercmp` is as_vercmp, `cmp_part` and `cmp_number` are the static
-- routines of these names, `version_parse` is as_version_parse, `vercmp_test_match` is
-- as_vercmp_test_match. A pointer into a string is the rest of the string from it on, an end
-- pointer the length of the rest, so that pointers into one string are equal exactly if the
-- lengths are. A read behind the NUL is the outcome `over_read`. `cmp_part` runs on fuel, one unit
-- per round; a round that goes on shortens one of the strings, so that the sum of both lengths and
-- one more is enough.
--
-- Relation: src/as-relation.c. Relation/Kinds has the enumerations and their texts, Relation the
-- private record and its typed accessors and as_relation_version_compare. The branches of
-- as_relation_is_satisfied stand in Relation/Check (components, modaliases, and the results),
-- Relation/Kernel, Relation/Amounts (memory and display length) and Relation/Controls;
-- Relation/Satisfied puts them together. A check is a step on the system information that gives a
-- check result or an error. Messages are kept as a format and its arguments.
--
-- Relation/Score: as_relation_check_results_get_compatibility_score of
-- src/as-relation-check-result.c.
--
-- SystemInfo: src/as-system-info.c. The lazily filled private record is a state that every query
-- hands on. What the code learns from uname, sysconf, sysfs, udev and hwdb, and the glob matcher
-- of GLib, are the fields of the parameter `Host`. The two flag words of input controls are
-- Boolean functions of the control kind. SystemInfo/Template has the templates of chassis kinds.
--
-- Spdx: src/as-spdx.c. `tokenize` is as_spdx_license_tokenize with its static helper, `detokenize`
-- is as_spdx_license_detokenize, Spdx/Expression has as_is_spdx_license_expression and
-- as_license_is_metadata_license, Spdx/Free has as_license_is_free_license. The license lists and
-- the string replacement that as_gstring_replace takes from GLib are the fields of a parameter,
-- `Tables`; Spdx/Lists has the ids of src/as-spdx-data.h. Spdx uses no other part; the validator
-- uses it.
--
-- ContentRating: src/as-content-rating.c. ContentRating has the values, the table of ages and the
-- routines on a rating, ContentRating/System the rating systems and how they name an age,
-- ContentRating/System/Territory the parsing of a locale, and ContentRating/Description the table
-- of descriptions. `attribute_from_csm_age` reads the table in a loop without an end; behind the
-- last row its outcome is `over_read`. What gettext makes of a text is the parameter `Locale`.
--
-- DataId: the data id routines of src/as-utils.c. DataId/Kinds has the texts of scopes
-- (src/as-component.c) and bundle kinds (src/as-bundle.c). The bit field of match flags is a
-- record of Booleans; the pointers of as_utils_data_id_match are the rests of the strings, where
-- `none` stands behind the terminating NUL. `g_str_hash` is a parameter.
--
-- Component/Relations: the relations that src/as-component.c keeps for a component, the
-- assumptions it makes for components that have none, the loop that checks a list of relations and
-- as_component_get_system_compatibility_score. The text of an error is not kept.
--
-- Component/Search: the search tokens of src/as-component.c. The hash table `token_cache` is a
-- list of entries; flag words are numbers with `|` digit by digit (Base/Bits). Component/Search
-- has the routines that add tokens, Component/Search/Terms those that choose the texts and match
-- terms. The stemmer, g_str_tokenize_and_fold and g_utf8_strdown are the fields of the parameter
-- `Texts`.
--
-- Component/Tags and Component/Box: the tags of src/as-component.c as a list of full texts, and
-- src/as-component-box.c, a box of components of which it reads the data id alone. The hash table
-- of a box is the list of the components that are in it.
--
-- Stemmer: src/as-stemmer.c with as_utils_locale_to_language. Snowball is a parameter.
--
-- Validator: src/as-validator.c, with src/as-validator-issue.c and the table of
-- src/as-validator-issue-tag.h (Validator/Issues, Validator/Tags). Validator has the state of a
-- validator and as_validator_add_issue. A routine that checks something gives the list of the
-- issues it adds, in their order (`Emission`), and `add_issues` enters them. Validator/ComponentId
-- has as_validator_validate_component_id, Validator/License the two license checks and the one for
-- the update contact, Validator/Markup the checks on any node, Validator/Description
-- as_validator_check_description_tag, Validator/Text the tests on texts, Validator/Override
-- as_validator_add_override, which writes into the list of tags that all validators share. The
-- nodes of libxml2, the printf of GLib, g_strstrip, g_utf8_substring and the resource of top level
-- domains are parameters.
--
-- Pool: the registry of src/as-pool.c with as_pool_add_component_internal (Pool/Add), and
-- as_component_merge_with_mode of src/as-component.c (Pool/Merge). Components are shared and
-- changed in place, so that they stand in a heap, a function from addresses to components; a
-- registry holds addresses. The routine is cut into one definition for each of its parts, in the
-- order of the code. A pool finds components by the data ids of DataId.
--
-- Compose: the icon policies (compose/asc-icon-policy.c) and the results (compose/asc-result.c) of
-- the composer. Hash tables are association lists; MD5 and the registry of hints are parameters.
--
-- The parts meet in Relation: a kernel check asks SystemInfo for the version of the running kernel
-- and compares it by Vercmp; the other checks ask SystemInfo alone; the score reads the results.
-- Component/Relations runs the checks one after the other on the same system information and hands
-- their results to the score. The component pool that as_relation_is_satisfied may be given is a
-- function from ids to the names of components.
--
-- Machine integers: memory and display lengths are unbounded numbers that `to_glong` and
-- `to_gulong` take to 64 bits where the code converts them. The score is unbounded; it stays
-- within an `int` for all lists that fit in memory in practice.
--
-- Not modelled: reading and writing of XML and YAML (clients of libxml2 and libyaml), the checks of
-- the validator on other tags, on web addresses and on whole files, the loading of a pool, its
-- cache and its queries, the processing of files, fonts and images by the composer, names and URLs
-- of licenses, reference counting and GObject properties, translation of messages, and all input
-- and output.
pub mod Base
pub mod Component
pub mod Compose
pub mod ContentRating
pub mod DataId
pub mod Pool
pub mod Relation
pub mod Spdx
pub mod Stemmer
pub mod SystemInfo
pub mod Validator
pub mod Vercmp
