-- ===== src/Create/Released.antt =====
-- Resume by name: src/discode/db/accessors/supersede.py against the query of the create saga.
