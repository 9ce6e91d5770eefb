-- ===== src/Lib.antt =====
-- A model of parts of Sequelize, an ORM for SQL databases: how values and parameters are written into
-- SQL texts, how where clauses are written, how model instances are set and validated, how transactions
-- are run, how hooks are kept and called, and how connections are taken from the pools.
--
-- The parts, and the files that model them:
--
-- - Base: what the other files share. `Text` is a list of UTF-16 code units, `Result` is code that
--   returns or throws, `decimal` writes a number as a template literal does.
--
-- - Sql: packages/core/src/utils/sql.ts. A raw query is scanned once by
--   `mapBindParametersAndReplacements`, which `mapBindParameters` (bind parameters) and
--   `injectReplacements` (replacements) call. Sql/Chars has its regular expressions as functions,
--   Sql/Collector the bind collectors, Sql/Scan its variables (the record `Scan`) and the branches for
--   strings, comments, dollar-quoted strings and `$`, Sql/Loop the other branches, the loop and its two
--   callers. The loop is recursion on the text still to be read; where the source adds to `i` inside the
--   loop, `skip` counts the characters that are passed over. Sql/Dialect has what the loop asks of the
--   dialects (packages/*/src/dialect.ts), Sql/Escape the functions that write strings and identifiers
--   (`escapeString`, packages/core/src/utils/dialect.ts, `quoteIdentifier` of the query generators), and
--   Sql/Reserved the words that are quoted under `quoteIdentifiers: false`, too. Sql/Binds has the bind objects of the same
--   file. `queryGenerator.escape`, which depends on the data types, is the parameter `Escaper`.
--
-- - Transaction: packages/core/src/transaction.ts, the methods of
--   packages/core/src/abstract-dialect/query-interface-typescript.ts that it calls, the check that
--   `queryRaw` of packages/core/src/sequelize.js makes, and `transaction` of
--   packages/core/src/sequelize-typescript.ts. Transaction/World is the store of `Transaction` objects,
--   the uuids of the connections and a log of the effects: queries, hooks, and the pool. The database,
--   the pool and the callbacks are the record `Environment`: they may throw at any effect, depending on
--   all earlier ones. Transaction/Methods has `commit` and `rollback`, Transaction/Start
--   `prepareEnvironment`, Transaction/Managed the constructor, the options and `sequelize.transaction`.
--   A method runs from its call to its end with nothing else in between, and a hook changes no
--   transaction; interleavings, and the retries and the hooks of `queryRaw`, are not modelled.
--
-- - Hooks: packages/core/src/hooks.ts and packages/utils/src/common/map/multi-map.ts. Listeners are
--   objects, told apart by a number; what a callback does is a parameter of a run. `MultiMap.set`, which
--   calls lodash, and the WeakMap of `HookHandlerBuilder` are not modelled.
--
-- - ReplicationPool: packages/core/src/abstract-dialect/replication-pool.ts. The pools are those of the
--   package sequelize-pool: what they give is a parameter. `destroyAllNow` and `drain` are not modelled.
--
-- - Where: packages/core/src/abstract-dialect/where-sql-builder.ts. Where/Tree has `WhereOptions` and the
--   recursion in front of an attribute name, Where/Nested the values behind one and their recursion,
--   Where/Operators the methods of the operators, Where/Format `formatPojoWhere`, which calls them, and
--   `formatWhereOptions`. Operands and data types (Where/Operand) are told apart as far as the code does.
--   `escape`, `escapeList`, `formatSqlExpression` and the parsers of attribute and key syntax, which are
--   made by the package bnf-parser, are parameters; they may throw and write to a state. Where/Grammar
--   is the syntax of SQL conditions with their truth values, in which SQL reads some single conditions as
--   one operand and the others only by themselves or in parentheses, by which Where/Meaning, Where/Truth,
--   Where/NestedTruth and Where/Whole read what is written.
--
-- - Instance: the methods of instances in packages/core/src/model.js. Instance/Value has the values,
--   Instance/State the record `Instance` (`dataValues`, `_previousDataValues`, `_changed`), `changed` and
--   `previous`, and the model definition as far as the methods ask it, Instance/Get `get` and `equals`,
--   Instance/Set `set` and `setDataValue`, Instance/Deletion `isSoftDeleted` and what `destroy` and
--   `restore` do before they save. `isEqual` of lodash, Dottie, custom getters and setters and the
--   comparisons of the data types are parameters, and so is what `_setInclude` builds. An object is the
--   list of its entries, so that an object passed with `raw` is not shared with the caller.
--
-- - Validation: packages/core/src/instance-validator.js. Validation/Checks has the checks and the errors
--   they add, Validation/Validator `validate` with its hooks, which may change the instance. Validators
--   are functions of the values that throw or return and change nothing. They are awaited together: of
--   the errors, only which there are is modelled, not the order in which asynchronous ones come.
--
-- - Fragments: packages/core/src/utils/join-sql-fragments.ts. Fragments/Join has `joinSQLFragments`, where
--   `reduce` is recursion with the flag `skipNextLeadingSpace`; `trim` removes ASCII white space only.
--
-- No loop runs on fuel: each is recursion on a list, a tree or a number.
--
-- Not modelled: the query generators, model definitions, the queries of models, associations and data
-- types, which are to come, and connection managers and queries, which talk to database drivers.
pub mod Base
pub mod Sql
pub mod Transaction
pub mod Hooks
pub mod ReplicationPool
pub mod Where
pub mod Instance
pub mod Validation
pub mod Fragments
