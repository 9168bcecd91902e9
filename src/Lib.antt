-- ===== src/Lib.antt =====
-- Reversing Lab: models of its server (backend/reversing_lab) and what they satisfy.
--
-- The server analyses binaries that users upload. A request passes the authorization and the rate
-- limiter (api/), its handler reads and writes rows through repositories (database/), and long
-- analyses run as jobs on a worker pool (jobs/).
--
-- Each component is a tree of modules, its definitions first and its theorems in modules named for
-- what they are about; the paths below are under backend/reversing_lab.
--
-- - Prelude: numbers, texts, lists and dictionaries that the components share. A Python `str` is the
--   native text, a `dict` the list of its items in order, an `int` that can be negative an ℤ.
-- - Jobs: `JobRepository` of database/repository.py over a table of rows (Jobs.Record, Jobs.Repository),
--   the worker of jobs/runner.py one session to a step and `cancel_job` (Jobs.Runner). A schedule is a
--   list of worker steps and requests in any order. Jobs.System sees it at one row. A task is what it
--   does with its `JobContext`; `size` bounds its steps. Rows are not deleted while a worker runs.
-- - Access: the key validator of config.py (Access.Keys), `authorize_request` of api/auth.py
--   (Access.Auth), the limiter of api/rate_limit.py (Access.Limiter), and both in the order in which
--   api/app.py installs them (Access.Gate). SHA-256 is a parameter. Clock readings are whole ticks.
-- - Cfg: the classification of instructions of disassembler/classify.py (Cfg.Classify) and `build_cfg` of
--   disassembler/cfg.py: the instructions taken (Cfg.Collect), the leaders (Cfg.Leaders), the blocks
--   (Cfg.Slice), successors and typed edges (Cfg.Graph) and the worklist (Cfg.Reach), whose fuel is one
--   round more than there are leaders. Capstone's instructions are a parameter, operand texts are
--   ASCII. Dominators and loop headers are not modelled.
-- - Store: the repositories of database/repository.py for binaries (Store.Binaries), annotations and
--   bookmarks (Store.Overlays), projects (Store.Projects), audit events (Store.Audit) and memory dumps with
--   their regions (Store.Regions), artifacts, dynamic runs and challenge attempts (Store.Runs) and CTF
--   workspaces (Store.Ctf), over tables of rows with the queries of Store.Table. A directory is a
--   dictionary from paths to bytes. Digests and path resolution are parameters.
-- - Transforms: the byte arithmetic of `transform_data` of analyzer/transforms.py: shifts and rotations
--   (Transforms), hexadecimal inputs (Transforms.Hex), XOR (Transforms.Xor) and integers
--   (Transforms.Integers). Its codecs, hashes and the texts that it returns are not modelled.
-- - Retention: the preview and the purge of database/retention.py over a database of the tables of Store
--   and Jobs (Retention.Database, Retention.Purge) and the removal of files (Retention.Files). Path
--   resolution, the allowed roots and the files that the system does not remove are parameters.
-- - Functions: the call graph of analysis/functions.py (Functions.Graph), whose search (Functions.Explore)
--   has two rounds of fuel more than there are functions.
-- - Export: the hash chain of audit/export.py (Export.Canonical, Export) and what a reader of a file
--   checks (Export.Verifier).
-- - Malware: the indicators of malware/iocs.py (Malware.Iocs) over what its patterns find, and the score
--   and the report of malware/triage.py (Malware.Triage) over the findings of the other analyses.
-- - Challenges: the catalog of challenge/registry.py over the challenges that the generators build, and
--   the check of a submission.
-- - Hexdump: the pages of analyzer/hexdump.py, on fuel of one row to a byte.
--
-- Not modelled: the routes and schemas (FastAPI and pydantic glue), parsers and decompilers (wrappers of
-- external tools), the memory and obfuscation heuristics, the malware rules and capabilities, reports,
-- the front end. Capstone, hashing, regular expressions and the SQL engine are not this program's
-- code: where a definition uses them they are parameters, or tables of rows with the queries written
-- out.
pub mod Prelude
pub mod Jobs
pub mod Access
pub mod Cfg
pub mod Store
pub mod Transforms
pub mod Retention
pub mod Functions
pub mod Hexdump
pub mod Challenges
pub mod Malware
pub mod Export
